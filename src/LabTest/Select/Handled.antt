-- ===== src/LabTest/Select/Handled.antt =====
-- What a descriptor that is served does to the server's variables.
use assignments_computer_net.Base.{
  ℕ, ◌≡◌, ◌≢◌, ◌<◌, refl, sym, subst, ◌∙◌, inl, inr, some, ◌∷◌, arith, ltb, ◌==◌, if-true, if-false,
  Bool-cases, Option-cases, if◌then◌else◌,
}
use assignments_computer_net.Peer.Text.{Bytes}
use assignments_computer_net.Transfer.System.{
  Fd, System, Outcome, finished, exited, undefined, unfinished, c_string, finished-injective,
}
use assignments_computer_net.Transfer.Copy.{failed, ended, more, Read-cases}
use assignments_computer_net.LabTest.Answer.{answer_request}
use assignments_computer_net.LabTest.Select.{
  fd_setsize, fd_set, fd_clr, Server, add_client, accept_client, answered, answer_client, hang_up,
  serve_client, handle,
}

module _ {S : System} where
  abbrev pub with_client : Server S → ℕ → S.State → Server S
  with_client v fd s = record v {
    newsockfd = some fd;
    master = fd_set fd v.master;
    fdmax = if ltb v.fdmax fd then fd else v.fdmax;
    system = s;
  }

  abbrev pub without_client : Server S → ℕ → S.State → Server S
  without_client v i s = record v { master = fd_clr i v.master; system = s }

  -- The system after `accept`, and after the read from a client.
  abbrev pub accepted : Server S → S.State
  accepted v = (S.accept (some v.listener) v.system).1

  abbrev pub heard_from : Server S → ℕ → S.State
  heard_from v i = (S.read (some i) 1024 v.system).1

  -- A connection comes in, the client is answered, or it has gone.
  pub data Handled (v : Server S) (i : ℕ) : Server S → Type 0 where
    joins :
        (fd : ℕ)
        → (S.accept (some v.listener) v.system).0 ≡ some fd
        → fd < fd_setsize
        → Handled v i (with_client v fd (accepted v))
    replies :
        (fuel : ℕ) (name : Bytes) (sock : Fd) (s : S.State)
        → i ≢ v.listener
        → answer_request S fuel name sock (heard_from v i) ≡ finished s
        → Handled v i (record v { system = s })
    leaves : i ≢ v.listener → Handled v i (without_client v i (S.close (some i) (heard_from v i)))

  add_client-Handled :
      (v w : Server S) (i fd : ℕ)
      → (S.accept (some v.listener) v.system).0 ≡ some fd
      → add_client S v fd (accepted v) ≡ finished w
      → Handled v i w
  unfolding add_client
  add_client-Handled v w i fd came e = elim (Bool-cases (ltb fd fd_setsize)) [
    | inl small ↦
        subst (Handled v i) (finished-injective _ _ (sym (if-true _ _ _ small) ∙ e))
          (joins fd came (ground arith))
    | inr big ↦ cc (if-false _ _ _ big, e)
  ]

  hang_up-Handled :
      (v w : Server S) (i : ℕ)
      → i ≢ v.listener
      → hang_up S v i (heard_from v i) ≡ finished w
      → Handled v i w
  unfolding hang_up
  hang_up-Handled v w i other e = subst (Handled v i) (finished-injective _ _ e) (leaves other)

  accept_client-Handled : (v w : Server S) (i : ℕ) → accept_client S v ≡ finished w → Handled v i w
  unfolding accept_client
  accept_client-Handled v w i e =
      let a = S.accept (some v.listener) v.system in
      elim (Option-cases a.0) [
        | inl none' ↦
            let out : accept_client S v ≡ exited (record v { system = a.1 }) =
              rw (none', accept_client) refl in
            cc (out, e)
        | inr (fd, some') ↦
            let adds : accept_client S v ≡ add_client S v fd a.1 = rw (some', accept_client) refl in
            add_client-Handled v w i fd some' (sym adds ∙ e)
      ]

  answered-Handled :
      (v w : Server S) (i fuel : ℕ) (name : Bytes) (sock : Fd) (r : Outcome S.State)
      → i ≢ v.listener
      → answer_request S fuel name sock (heard_from v i) ≡ r
      → answered S v r ≡ finished w
      → Handled v i w
  unfolding answered
  answered-Handled v w i fuel name sock (finished s) other q e =
      subst (Handled v i) (finished-injective _ _ e) (replies fuel name sock s other q)
  answered-Handled v w i fuel name sock (exited s) other q e = cc
  answered-Handled v w i fuel name sock undefined other q e = cc
  answered-Handled v w i fuel name sock unfinished other q e = cc

  answer_client-Handled :
      (fuel : ℕ) (v w : Server S) (i : ℕ) (buffer : Bytes)
      → i ≢ v.listener
      → answer_client S fuel v buffer (heard_from v i) ≡ finished w
      → Handled v i w
  unfolding answer_client
  answer_client-Handled fuel v w i buffer other e = elim (Option-cases (c_string 1024 buffer)) [
    | inl none' ↦
        let out : answer_client S fuel v buffer (heard_from v i) ≡ undefined =
          rw (none', answer_client) refl in
        cc (out, e)
    | inr (name, some') ↦ elim (Option-cases v.newsockfd) [
      | inl none'' ↦
          let out : answer_client S fuel v buffer (heard_from v i) ≡ undefined =
            rw (some', none'', answer_client) refl in
          cc (out, e)
      | inr (fd, some'') ↦
          let answer = answer_request S fuel name (some fd) (heard_from v i) in
          let runs : answer_client S fuel v buffer (heard_from v i) ≡ answered S v answer =
            simp (some', some'', answer_client) in
          answered-Handled v w i fuel name (some fd) answer other refl (sym runs ∙ e)
    ]
  ]

  serve_client-Handled :
      (fuel : ℕ) (v w : Server S) (i : ℕ)
      → i ≢ v.listener
      → serve_client S fuel v i ≡ finished w
      → Handled v i w
  unfolding serve_client
  serve_client-Handled fuel v w i other e =
      let nbytes = S.read (some i) 1024 v.system in
      elim (Read-cases S nbytes.0) [
        | failed r ↦
            let out : serve_client S fuel v i ≡ exited (record v { system = nbytes.1 }) =
              rw (r, serve_client) refl in
            cc (out, e)
        | ended r ↦
            let ends : serve_client S fuel v i ≡ hang_up S v i nbytes.1 =
              rw (r, serve_client) refl in
            hang_up-Handled v w i other (sym ends ∙ e)
        | more c t r ↦
            let runs : serve_client S fuel v i ≡ answer_client S fuel v (c ∷ t) nbytes.1 =
              rw (r, serve_client) refl in
            answer_client-Handled fuel v w i (c ∷ t) other (sym runs ∙ e)
      ]

  pub handle-Handled :
      (fuel : ℕ) (v w : Server S) (i : ℕ) → handle S fuel v i ≡ finished w → Handled v i w
  unfolding handle
  handle-Handled fuel v w i e = elim (Bool-cases (i == v.listener)) [
    | inl same ↦ accept_client-Handled v w i (sym (if-true _ _ _ same) ∙ e)
    | inr other ↦ serve_client-Handled fuel v w i (ground arith) (sym (if-false _ _ _ other) ∙ e)
  ]
