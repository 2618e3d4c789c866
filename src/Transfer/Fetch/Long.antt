-- ===== src/Transfer/Fetch/Long.antt =====
-- Downloads of a file with a long name.
use assignments_computer_net.Base.{◌≡◌, ◌⊎◌}
use assignments_computer_net.Transfer.System.{System, Outcome, exited, undefined}

-- The process exits, or a buffer overflows.
abbrev pub Stops : (S : System) → Outcome S.State → Type 0
Stops S o = ((s : S.State) × (o ≡ exited s)) ⊎ (o ≡ undefined)
