-- ===== src/LabTest/Select/Open.antt =====
-- What holds of the server's variables in every round.
use assignments_computer_net.Base.{
  ℕ, zero, suc, ◌+◌, ◌≡◌, ◌≢◌, ◌<◌, ◌≤◌, refl, sym, subst, ◌∙◌, inl, inr, true, none, some, arith,
  ltb, leb, if-true, if-false, Bool-cases, Option-cases,
}
use assignments_computer_net.Transfer.System.{
  System, finished, exited, undefined, unfinished, finished-injective, Ending-cases, finishes,
  exits, derails, stalls,
}
use assignments_computer_net.LabTest.Select.Handled.{
  Handled, joins, replies, leaves, with_client, without_client, accepted, heard_from,
  handle-Handled,
}
use assignments_computer_net.LabTest.Select.{
  fd_setsize, Server, start_server, handle, visit, Selecting, IsSelect, round, Reaches, here, next,
}

-- The listener stays in the set, `fdmax` bounds the set and fits it, and when a connection is in the
-- set or is ready, `newsockfd` has a value.
pub record IsOpen {S : System} (v : Server S) : Type 0 where
  pub listening : v.master v.listener ≡ true
  pub bounded : (i : ℕ) → v.master i ≡ true → i ≤ v.fdmax
  pub fits : v.fdmax < fd_setsize
  pub connected : (i : ℕ) → v.master i ≡ true → i ≢ v.listener → v.newsockfd ≢ none
  pub ready : (i : ℕ) → v.read_fds i ≡ true → i ≢ v.listener → v.newsockfd ≢ none

module _ {S : System} where
  pub start_server-IsOpen :
      (listener : ℕ) (s : S.State) (v : Server S)
      → start_server S listener s ≡ finished v
      → IsOpen v
  unfolding start_server
  start_server-IsOpen listener s v e = elim (Bool-cases (ltb listener fd_setsize)) [
    | inl small ↦ subst IsOpen (finished-injective _ _ (sym (if-true _ _ _ small) ∙ e)) (record {
      listening = ground arith;
      bounded = λ i m. ground arith;
      fits = ground arith;
      connected = λ i m other. ground arith;
      ready = λ i m other. ground arith;
    })
    | inr big ↦ cc (if-false _ _ _ big, e)
  ]

  add_client-IsOpen :
      (v : Server S) (fd : ℕ) (s : S.State)
      → fd < fd_setsize
      → IsOpen v
      → IsOpen (with_client v fd s)
  add_client-IsOpen v fd s small o = record {
    listening = ground (arith, o.listening);
    bounded = λ i m. ground (arith, o.bounded i);
    fits = ground (arith, o.fits);
    connected = λ i m other c. cc;
    ready = λ i m other c. cc;
  }

  hang_up-IsOpen :
      (v : Server S) (i : ℕ) (s : S.State)
      → i ≢ v.listener
      → IsOpen v
      → IsOpen (without_client v i s)
  hang_up-IsOpen v i s other o = record {
    listening = ground (arith, o.listening);
    bounded = λ j m. ground (arith, o.bounded j);
    fits = o.fits;
    connected = λ j m. ground (arith, o.connected j);
    ready = o.ready;
  }

  Handled-IsOpen : (v : Server S) (i : ℕ) (w : Server S) → IsOpen v → Handled v i w → IsOpen w
  Handled-IsOpen v i _ o (joins fd came small) = add_client-IsOpen v fd (accepted v) small o
  Handled-IsOpen v i _ o (leaves other) =
      hang_up-IsOpen v i (S.close (some i) (heard_from v i)) other o
  Handled-IsOpen v i _ o (replies fuel name sock s other runs) = record {
    listening = o.listening;
    bounded = o.bounded;
    fits = o.fits;
    connected = o.connected;
    ready = o.ready;
  }

  -- A descriptor that is served keeps the variables as they have to be.
  handle-IsOpen :
      (fuel : ℕ) (v w : Server S) (i : ℕ) → IsOpen v → handle S fuel v i ≡ finished w → IsOpen w
  handle-IsOpen fuel v w i o e = Handled-IsOpen v i w o (handle-Handled fuel v w i e)

  visit-IsOpen :
      (rounds fuel i : ℕ) (v w : Server S)
      → IsOpen v
      → visit S rounds fuel i v ≡ finished w
      → IsOpen w
  unfolding visit
  visit-IsOpen zero fuel i v w o e = subst IsOpen (finished-injective _ _ e) o
  visit-IsOpen (suc rounds) fuel i v w o e = elim (Bool-cases (leb i v.fdmax)) [
    | inr past ↦
        let ends : visit S (suc rounds) fuel i v ≡ finished v = rw (past, visit) refl in
        subst IsOpen (finished-injective _ _ (sym ends ∙ e)) o
    | inl inside ↦ elim (Bool-cases (v.read_fds i)) [
      | inr quiet ↦
          let skips : visit S (suc rounds) fuel i v ≡ visit S rounds fuel (i + 1) v =
            rw (inside, quiet, visit) refl in
          visit-IsOpen rounds fuel (i + 1) v w o (sym skips ∙ e)
      | inl loud ↦ elim (Ending-cases (handle S fuel v i)) [
        | finishes v' h ↦
            let goes : visit S (suc rounds) fuel i v ≡ visit S rounds fuel (i + 1) v' =
              simp (inside, loud, h, visit) in
            visit-IsOpen rounds fuel (i + 1) v' w (handle-IsOpen fuel v v' i o h) (sym goes ∙ e)
        | exits v' h ↦
            let out : visit S (suc rounds) fuel i v ≡ exited v' = simp (inside, loud, h, visit) in
            cc (out, e)
        | derails h ↦
            let out : visit S (suc rounds) fuel i v ≡ undefined = simp (inside, loud, h, visit) in
            cc (out, e)
        | stalls h ↦
            let out : visit S (suc rounds) fuel i v ≡ unfinished = simp (inside, loud, h, visit) in
            cc (out, e)
      ]
    ]
  ]

  round-IsOpen :
      (select : Selecting S) (fuel : ℕ) (v w : Server S)
      → IsSelect S select
      → IsOpen v
      → round S select fuel v ≡ finished w
      → IsOpen w
  unfolding round
  round-IsOpen select fuel v w K o e =
      let got = select (v.fdmax + 1) v.master v.system in
      elim (Option-cases got.0) [
        | inl none' ↦
            let out : round S select fuel v
                ≡ exited (record v { read_fds = v.master; system = got.1 }) =
              simp (none', round) in
            cc (out, e)
        | inr (set, some') ↦
            let seen : Server S = record v { read_fds = set; system = got.1 } in
            let goes : round S select fuel v ≡ visit S fd_setsize fuel 0 seen =
              simp (some', round) in
            visit-IsOpen fd_setsize fuel 0 seen w
              (record {
                listening = o.listening;
                bounded = o.bounded;
                fits = o.fits;
                connected = o.connected;
                ready = λ i r other.
                    o.connected i (K.among (v.fdmax + 1) v.master set v.system i some' r) other;
              })
              (sym goes ∙ e)
      ]

  -- The server's variables in every round: the listener stays in the set, `fdmax` bounds the set and is
  -- below 1024, and when a connection is in the set or is ready, `newsockfd` has a value, so that an
  -- answer is never written to a descriptor without one. `select` reports only members of the set.
  pub Reaches-IsOpen :
      (select : Selecting S) (v w : Server S)
      → IsSelect S select
      → IsOpen v
      → Reaches S select v w
      → IsOpen w
  Reaches-IsOpen select v w K o here = o
  Reaches-IsOpen select v w K o (next {w = m} fuel before e) =
      round-IsOpen select fuel m w K (Reaches-IsOpen select v m K o before) e
