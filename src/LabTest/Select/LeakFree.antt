-- ===== src/LabTest/Select/LeakFree.antt =====
-- The descriptors that `server2.cpp` has open, and its set.
use assignments_computer_net.Base.{
  ℕ, zero, suc, ◌+◌, ◌≡◌, ◌≤◌, refl, sym, subst, ◌∙◌, inl, inr, true, false, some, arith, ltb, leb,
  Bool-cases, Option-cases, if◌then◌else◌, if-true, if-false,
}
use assignments_computer_net.Transfer.System.{System, finished, exited, finished-injective}
use assignments_computer_net.Transfer.Listen.{Processes, IsTable}
use assignments_computer_net.LabTest.Select.{
  FdSet, fd_setsize, Server, start_server, handle, visit, Selecting, IsSelect, round, Reaches, here,
  next,
}
use assignments_computer_net.LabTest.Select.Handled.{
  Handled, joins, replies, leaves, heard_from, handle-Handled,
}
use assignments_computer_net.LabTest.Select.Order.{then_on_finished, visit-then_on}
use assignments_computer_net.LabTest.Select.Main.{
  Serves, serves, bound, heard, reused, open_listener-finished,
}
use assignments_computer_net.LabTest.Select.Table.{IsFileTable, answer_request_keeps}

module _ {S : System} {P : Processes S} (T : IsTable S P) (A : IsFileTable T) (s : S.State) where
  -- The descriptors that are open are those of the set and those that were open at the start, and none is
  -- both.
  pub record IsLeakFree (v : Server S) : Type 0 where
    pub opened : (i : ℕ) → T.is_open i v.system ≡ (if v.master i then true else T.is_open i s)
    pub apart : (i : ℕ) → v.master i ≡ true → T.is_open i s ≡ false

  -- What is ready from `i` on is in the set.
  abbrev Members : ℕ → Server S → Type 0
  Members i v = (j : ℕ) → i ≤ j → v.read_fds j ≡ true → v.master j ≡ true

  Handled-IsLeakFree :
      (v : Server S) (i : ℕ) (w : Server S)
      → IsLeakFree v
      → v.master i ≡ true
      → Handled v i w
      → IsLeakFree w
  Handled-IsLeakFree v i _ t m (joins fd came small) =
      let l = some v.listener in
      record {
        opened = λ j. ground (arith, T.accept_opens l v.system fd j came, t.opened j);
        apart = λ j n. ground (arith, T.accept_new l v.system fd came, t.opened j, t.apart j);
      }
  Handled-IsLeakFree v i _ t m (replies fuel name sock after other runs) = record {
    opened = λ j.
        answer_request_keeps T A fuel name sock (heard_from v i) after j runs
        ∙ (A.read_keeps (some i) 1024 j v.system ∙ t.opened j);
    apart = t.apart;
  }
  Handled-IsLeakFree v i _ t m (leaves other) = record {
    opened = λ j. ground (
      arith,
      T.close_closes i j (heard_from v i),
      A.read_keeps (some i) 1024 j v.system,
      t.opened j,
      t.apart i m,
    );
    apart = λ j n. ground (arith, t.apart j);
  }

  Handled-Members :
      (v : Server S) (i : ℕ) (w : Server S) → Members i v → Handled v i w → Members (i + 1) w
  Handled-Members v i _ h (joins fd came small) j l r = ground (arith, h j)
  Handled-Members v i _ h (replies fuel name sock after other runs) j l r = h j (omega arith) r
  Handled-Members v i _ h (leaves other) j l r = ground (arith, h j)

  visit-IsLeakFree :
      (rounds fuel i : ℕ) (v w : Server S)
      → IsLeakFree v
      → Members i v
      → visit S rounds fuel i v ≡ finished w
      → IsLeakFree w
  unfolding visit
  visit-IsLeakFree zero fuel i v w t m e = subst IsLeakFree (finished-injective _ _ e) t
  visit-IsLeakFree (suc rounds) fuel i v w t m e = elim (Bool-cases (leb i v.fdmax)) [
    | inr past ↦
        let ends : visit S (suc rounds) fuel i v ≡ finished v = rw (past, visit) refl in
        subst IsLeakFree (finished-injective _ _ (sym ends ∙ e)) t
    | inl inside ↦ elim (Bool-cases (v.read_fds i)) [
      | inr quiet ↦
          let skips : visit S (suc rounds) fuel i v ≡ visit S rounds fuel (i + 1) v =
            rw (inside, quiet, visit) refl in
          visit-IsLeakFree rounds fuel (i + 1) v w t (λ j l. m j (omega arith)) (sym skips ∙ e)
      | inl loud ↦
          let goes = sym (visit-then_on rounds fuel i v inside loud) ∙ e in
          let (v', served, rest) =
            then_on_finished (handle S fuel v i) (visit S rounds fuel (i + 1)) w goes in
          let h = handle-Handled fuel v v' i served in
          visit-IsLeakFree rounds fuel (i + 1) v' w
            (Handled-IsLeakFree v i v' t (m i (omega arith) loud) h) (Handled-Members v i v' m h)
            rest
    ]
  ]

  -- `select` leaves the open descriptors as they are.
  abbrev pub KeepsTable : Selecting S → Type 0
  KeepsTable select =
      (n i : ℕ) (set : FdSet) (u : S.State) → T.is_open i (select n set u).1 ≡ T.is_open i u

  round-IsLeakFree :
      (select : Selecting S) (fuel : ℕ) (v w : Server S)
      → IsSelect S select
      → KeepsTable select
      → IsLeakFree v
      → round S select fuel v ≡ finished w
      → IsLeakFree w
  unfolding round
  round-IsLeakFree select fuel v w K keeps t e =
      let got = select (v.fdmax + 1) v.master v.system in
      elim (Option-cases got.0) [
        | inl fails ↦
            let out : round S select fuel v
                ≡ exited (record v { read_fds = v.master; system = got.1 }) =
              simp (fails, round) in
            absurd (cc (out, e))
        | inr (set, reports) ↦
            let seen : Server S = record v { read_fds = set; system = got.1 } in
            let goes : round S select fuel v ≡ visit S fd_setsize fuel 0 seen =
              simp (reports, round) in
            visit-IsLeakFree fd_setsize fuel 0 seen w
              (record {
                opened = λ i. keeps (v.fdmax + 1) i v.master v.system ∙ t.opened i;
                apart = t.apart;
              })
              (λ j l r. K.among (v.fdmax + 1) v.master set v.system j reports r) (sym goes ∙ e)
      ]

  Reaches-IsLeakFree :
      (select : Selecting S) (v w : Server S)
      → IsSelect S select
      → KeepsTable select
      → IsLeakFree v
      → Reaches S select v w
      → IsLeakFree w
  Reaches-IsLeakFree select v w K keeps t here = t
  Reaches-IsLeakFree select v w K keeps t (next {w = m} fuel before e) =
      round-IsLeakFree select fuel m w K keeps (Reaches-IsLeakFree select v m K keeps t before) e

  start_server-IsLeakFree :
      (fd : ℕ) (v : Server S)
      → (S.socket s).0 ≡ some fd
      → start_server S fd (heard S P fd s).1 ≡ finished v
      → IsLeakFree v
  unfolding start_server
  start_server-IsLeakFree fd v made e = elim (Bool-cases (ltb fd fd_setsize)) [
    | inr big ↦ absurd (cc (if-false _ _ _ big, e))
    | inl small ↦
        subst IsLeakFree (finished-injective _ _ (sym (if-true _ _ _ small) ∙ e)) (record {
          opened = λ i. ground (
            arith,
            T.listen_keeps (some fd) 10 i (bound S P fd s).1,
            T.bind_keeps (some fd) 5000 i (reused S P fd s).1,
            A.reuse_keeps (some fd) i (S.socket s).1,
            T.socket_opens s fd i made,
          );
          apart = λ i m. ground (arith, A.socket_new s fd made);
        })
  ]

  -- In every round that `main` reaches, the process has open what it had open when it started, and the
  -- descriptors of its set, none of which was open then, and nothing else: no file and no other connection
  -- stays open. `select` reports only members of the set and leaves the open descriptors as they are.
  pub Serves-IsLeakFree :
      (select : Selecting S) (w : Server S)
      → IsSelect S select
      → KeepsTable select
      → Serves S P select s w
      → IsLeakFree w
  Serves-IsLeakFree select w K keeps (serves {fd} {ready} {v} set_up start more) =
      let (made, same) = open_listener-finished S P s fd ready set_up in
      Reaches-IsLeakFree select v w K keeps
        (start_server-IsLeakFree fd v made
          (subst (λ u. start_server S fd u ≡ finished v) same start))
        more
