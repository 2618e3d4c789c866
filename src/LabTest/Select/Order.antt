-- ===== src/LabTest/Select/Order.antt =====
-- The order in which a round of `server2.cpp` serves the descriptors.
use assignments_computer_net.Base.{
  ℕ, zero, suc, ◌+◌, ◌≡◌, ◌≤◌, refl, sym, ap, ◌∙◌, inl, inr, true, false, some, List, [], ◌∷◌,
  arith, leb, Bool-cases, if◌then◌else◌, if-true, if-false,
}
use assignments_computer_net.Transfer.System.{
  System, Outcome, finished, exited, undefined, unfinished, Ending-cases, finishes, exits, derails,
  stalls,
}
use assignments_computer_net.Transfer.Listen.{Processes}
use assignments_computer_net.LabTest.Select.{
  FdSet, fd_setsize, Server, handle, visit, Selecting, IsSelect, round,
}
use assignments_computer_net.LabTest.Select.Handled.{
  Handled, joins, replies, leaves, handle-Handled,
}
use assignments_computer_net.LabTest.Select.Main.{Serves, Serves-IsOpen}

-- The members of a set from `i` on, among `n` numbers, in their order.
abbrev pub members_from : ℕ → ℕ → FdSet → List ℕ
members_from zero i set = []
members_from (suc n) i set =
    let more = members_from n (i + 1) set in if set i then i ∷ more else more

no_members : (n i : ℕ) (set : FdSet) → ((j : ℕ) → i ≤ j → set j ≡ false) → members_from n i set ≡ []
no_members zero i set h = refl
no_members (suc n) i set h =
    rw (h i (omega arith)) (no_members n (i + 1) set (λ j l. h j (omega arith)))

module _ {S : System} where
  -- What follows when the process goes on.
  abbrev pub then_on : Outcome (Server S) → (Server S → Outcome (Server S)) → Outcome (Server S)
  then_on (finished v) k = k v
  then_on (exited v) k = exited v
  then_on undefined k = undefined
  then_on unfinished k = unfinished

  then_on_same :
      (o : Outcome (Server S)) (f g : Server S → Outcome (Server S))
      → ((v : Server S) → o ≡ finished v → f v ≡ g v)
      → then_on o f ≡ then_on o g
  then_on_same (finished v) f g h = h v refl
  then_on_same (exited v) f g h = refl
  then_on_same undefined f g h = refl
  then_on_same unfinished f g h = refl

  pub then_on_finished :
      (o : Outcome (Server S)) (k : Server S → Outcome (Server S)) (w : Server S)
      → then_on o k ≡ finished w
      → (v : Server S) × (o ≡ finished v) × (k v ≡ finished w)
  then_on_finished (finished v) k w e = (v, refl, e)
  then_on_finished (exited v) k w e = absurd (cc e)
  then_on_finished undefined k w e = absurd (cc e)
  then_on_finished unfinished k w e = absurd (cc e)

  -- The descriptors of a list are served one after the other, as long as the process goes on.
  unfoldable pub serve_each : ℕ → List ℕ → Server S → Outcome (Server S)
  serve_each fuel [] v = finished v
  serve_each fuel (i ∷ fds) v = then_on (handle S fuel v i) (serve_each fuel fds)

  pub visit-then_on :
      (rounds fuel i : ℕ) (v : Server S)
      → leb i v.fdmax ≡ true
      → v.read_fds i ≡ true
      → visit S (suc rounds) fuel i v ≡ then_on (handle S fuel v i) (visit S rounds fuel (i + 1))
  unfolding visit
  visit-then_on rounds fuel i v inside loud = elim (Ending-cases (handle S fuel v i)) [
    | finishes v' h ↦ simp (inside, loud, h, visit)
    | exits v' h ↦ simp (inside, loud, h, visit)
    | derails h ↦ simp (inside, loud, h, visit)
    | stalls h ↦ simp (inside, loud, h, visit)
  ]

  -- What is ready is not above `fdmax`.
  abbrev Below : Server S → Type 0
  Below v = (j : ℕ) → v.read_fds j ≡ true → j ≤ v.fdmax

  Handled-read_fds :
      (v : Server S) (i : ℕ) (w : Server S)
      → Handled v i w
      → (w.read_fds ≡ v.read_fds) × (v.fdmax ≤ w.fdmax)
  Handled-read_fds v i _ (joins fd came small) = (refl, ground arith)
  Handled-read_fds v i _ (replies fuel name sock s other runs) = (refl, omega arith)
  Handled-read_fds v i _ (leaves other) = (refl, omega arith)

  Handled-Below : (v : Server S) (i : ℕ) (w : Server S) → Below v → Handled v i w → Below w
  Handled-Below v i w b h j r =
      let (same, grows) = Handled-read_fds v i w h in
      let low = b j (sym (ap (λ f. f j) same) ∙ r) in omega (arith, low, grows)

  visit-serve_each :
      (rounds fuel i : ℕ) (v : Server S)
      → Below v
      → visit S rounds fuel i v ≡ serve_each fuel (members_from rounds i v.read_fds) v
  unfolding visit serve_each
  visit-serve_each zero fuel i v b = refl
  visit-serve_each (suc rounds) fuel i v b =
      let set = v.read_fds in
      let more = members_from rounds (i + 1) set in
      let now = λ (fds : List ℕ). serve_each fuel fds v in
      elim (Bool-cases (leb i v.fdmax)) [
        | inr past ↦
            let none_ready : (j : ℕ) → i ≤ j → set j ≡ false = λ j l. ground (arith, b j, past) in
            let ends : visit S (suc rounds) fuel i v ≡ finished v = rw (past, visit) refl in
            ends ∙ sym (ap now (no_members (suc rounds) i set none_ready))
        | inl inside ↦ elim (Bool-cases (set i)) [
          | inr quiet ↦
              let skips : visit S (suc rounds) fuel i v ≡ visit S rounds fuel (i + 1) v =
                rw (inside, quiet, visit) refl in
              skips
              ∙ (visit-serve_each rounds fuel (i + 1) v b ∙ sym (ap now (if-false _ _ _ quiet)))
          | inl loud ↦
              let rest : (v' : Server S)
                  → handle S fuel v i ≡ finished v'
                  → visit S rounds fuel (i + 1) v' ≡ serve_each fuel more v' =
                λ v' h.
                  let after = handle-Handled fuel v v' i h in
                  visit-serve_each rounds fuel (i + 1) v' (Handled-Below v i v' b after)
                  ∙ ap (λ f. serve_each fuel (members_from rounds (i + 1) f) v')
                      (Handled-read_fds v i v' after).0 in
              visit-then_on rounds fuel i v inside loud
              ∙ (then_on_same (handle S fuel v i) _ _ rest
                  ∙ sym (ap now (if-true _ (i ∷ more) more loud)))
        ]
      ]

module _ (S : System) (P : Processes S) where
  -- In every round that `main` reaches, the loop from 0 to `fdmax`, which grows while connections come in,
  -- serves exactly the descriptors that `select` has reported, each once and in the order of their
  -- numbers, until one of them ends the process. `select` reports only members of the set.
  pub round-serve_each :
      (select : Selecting S) (s : S.State) (v : Server S) (fuel : ℕ) (set : FdSet)
      → IsSelect S select
      → Serves S P select s v
      → (select (v.fdmax + 1) v.master v.system).0 ≡ some set
      → round S select fuel v
        ≡ serve_each fuel
            (members_from fd_setsize 0 set)
            (record v { read_fds = set; system = (select (v.fdmax + 1) v.master v.system).1 })
  unfolding round
  round-serve_each select s v fuel set K serving reports =
      let o = (Serves-IsOpen S P select s v K serving).1 in
      let after = (select (v.fdmax + 1) v.master v.system).1 in
      let seen : Server S = record v { read_fds = set; system = after } in
      let goes : round S select fuel v ≡ visit S fd_setsize fuel 0 seen = simp (reports, round) in
      goes
      ∙ visit-serve_each fd_setsize fuel 0 seen
          (λ j r. o.bounded j (K.among (v.fdmax + 1) v.master set v.system j reports r))
