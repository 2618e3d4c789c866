-- ===== src/LabTest/Select.antt =====
-- The loop of `server2.cpp`, which serves all connections with one `select`.
pub mod Handled
pub mod Main
pub mod Order
pub mod Open
pub mod Table
pub mod LeakFree
pub mod Wrong
use assignments_computer_net.Base.{
  ℕ, zero, suc, ◌+◌, ◌≡◌, ◌≢◌, ◌<◌, ◌≤◌, Bool, true, false, Option, none, some, List, [], ◌∷◌, ltb,
  leb, ◌==◌, if◌then◌else◌,
}
use assignments_computer_net.Peer.Text.{Bytes}
use assignments_computer_net.Transfer.System.{
  Fd, System, Outcome, finished, exited, undefined, unfinished, c_string,
}
use assignments_computer_net.LabTest.Answer.{answer_request}

-- An `fd_set`. FD_SET of a descriptor from 1024 on is undefined.
abbrev pub FdSet : Type 0
FdSet = ℕ → Bool

abbrev pub fd_setsize : ℕ
fd_setsize = 1024

abbrev pub fd_set : ℕ → FdSet → FdSet
fd_set fd set i = if i == fd then true else set i

abbrev pub fd_clr : ℕ → FdSet → FdSet
fd_clr fd set i = if i == fd then false else set i

-- The variables of `main`. `newsockfd` has no value before the first connection.
pub record Server (S : System) : Type 0 where
  pub master : FdSet
  pub read_fds : FdSet
  pub fdmax : ℕ
  pub listener : ℕ
  pub newsockfd : Option ℕ
  pub system : S.State

module _ (S : System) where
  -- The variables when the listener is set up, in a system where that has been done.
  unfoldable pub start_server : ℕ → S.State → Outcome (Server S)
  start_server listener s =
      if ltb listener fd_setsize
      then finished (record {
        master = fd_set listener (λ _. false);
        read_fds = λ _. false;
        fdmax = listener;
        listener = listener;
        newsockfd = none;
        system = s;
      })
      else undefined

  unfoldable pub add_client : Server S → ℕ → S.State → Outcome (Server S)
  add_client v fd s =
      if ltb fd fd_setsize
      then finished (record v {
        newsockfd = some fd;
        master = fd_set fd v.master;
        fdmax = if ltb v.fdmax fd then fd else v.fdmax;
        system = s;
      })
      else undefined

  unfoldable pub accept_client : Server S → Outcome (Server S)
  unfolding add_client
  accept_client v =
      let a = S.accept (some v.listener) v.system in
      elim a.0 [ none ↦ exited (record v { system = a.1 }) | some fd ↦ add_client v fd a.1 ]

  -- The end of a request: the process may have ended in it.
  unfoldable pub answered : Server S → Outcome S.State → Outcome (Server S)
  answered v (finished s) = finished (record v { system = s })
  answered v (exited s) = exited (record v { system = s })
  answered v undefined = undefined
  answered v unfinished = unfinished

  -- The answer is written to `newsockfd`.
  unfoldable pub answer_client : ℕ → Server S → Bytes → S.State → Outcome (Server S)
  unfolding answered
  answer_client fuel v buffer s = elim (c_string 1024 buffer) [
    | none ↦ undefined
    | some name ↦ elim v.newsockfd [
      | none ↦ undefined
      | some fd ↦ answered v (answer_request S fuel name (some fd) s)
    ]
  ]

  unfoldable pub hang_up : Server S → ℕ → S.State → Outcome (Server S)
  hang_up v i s = finished (record v { master = fd_clr i v.master; system = S.close (some i) s })

  unfoldable pub serve_client : ℕ → Server S → ℕ → Outcome (Server S)
  unfolding answer_client hang_up
  serve_client fuel v i =
      let nbytes = S.read (some i) 1024 v.system in
      elim nbytes.0 [
        | none ↦ exited (record v { system = nbytes.1 })
        | some [] ↦ hang_up v i nbytes.1
        | some (c ∷ t) ↦ answer_client fuel v (c ∷ t) nbytes.1
      ]

  unfoldable pub handle : ℕ → Server S → ℕ → Outcome (Server S)
  unfolding accept_client serve_client
  handle fuel v i = if i == v.listener then accept_client v else serve_client fuel v i

  -- `for (i = 0; i <= fdmax; i++)`: 1024 rounds are enough, since `fdmax` stays below that.
  unfoldable pub visit : ℕ → ℕ → ℕ → Server S → Outcome (Server S)
  unfolding handle
  visit zero fuel i v = finished v
  visit (suc rounds) fuel i v =
      if leb i v.fdmax
      then elim (v.read_fds i) [
        | false ↦ visit rounds fuel (i + 1) v
        | true ↦ elim (handle fuel v i) [
          | finished v' ↦ visit rounds fuel (i + 1) v'
          | exited v' ↦ exited v'
          | undefined ↦ undefined
          | unfinished ↦ unfinished
        ]
      ]
      else finished v

-- `select (fdmax + 1, &read_fds, ...)`: the set of those that are ready, or -1.
abbrev pub Selecting : System → Type 0
Selecting S = ℕ → FdSet → S.State → Option FdSet × S.State

-- Only members of the set that was given are reported.
pub record IsSelect (S : System) (select : Selecting S) : Type 0 where
  pub among :
      (n : ℕ) (set ready : FdSet) (s : S.State) (i : ℕ)
      → (select n set s).0 ≡ some ready
      → ready i ≡ true
      → set i ≡ true

module _ (S : System) (select : Selecting S) where
  -- One round of the main loop.
  unfoldable pub round : ℕ → Server S → Outcome (Server S)
  unfolding visit
  round fuel v =
      let ready = select (v.fdmax + 1) v.master v.system in
      elim ready.0 [
        | none ↦ exited (record v { read_fds = v.master; system = ready.1 })
        | some set ↦ visit S fd_setsize fuel 0 (record v { read_fds = set; system = ready.1 })
      ]

  -- Some rounds of the loop in a row.
  pub data Reaches (v : Server S) : Server S → Type 0 where
    here : Reaches v v
    next : {w u : Server S} (fuel : ℕ) → Reaches v w → round fuel w ≡ finished u → Reaches v u
