-- ===== src/LabTest/Select/Main.antt =====
-- `main` of `server2.cpp`: the listener is set up, and then the loop runs.
use mathlib.Core.Option.{some-injective}
use assignments_computer_net.Base.{
  sym, ap, ◌∙◌, ℕ, ◌≡◌, refl, inl, inr, Bool, true, Bool-cases, Option-cases, none, some,
  if◌then◌else◌,
}
use assignments_computer_net.Transfer.System.{
  Fd, System, Outcome, finished, exited, finished-injective,
}
use assignments_computer_net.Transfer.Listen.{Processes}
use assignments_computer_net.LabTest.Select.{Server, start_server, Selecting, IsSelect, Reaches}
use assignments_computer_net.LabTest.Select.Open.{IsOpen, start_server-IsOpen, Reaches-IsOpen}

module _ (S : System) (P : Processes S) where
  -- The system after each call that sets up the listener.
  abbrev pub reused : ℕ → S.State → Bool × S.State
  reused fd s = P.set_reuse_addr (some fd) (S.socket s).1

  abbrev pub bound : ℕ → S.State → Bool × S.State
  bound fd s = P.bind (some fd) 5000 (reused fd s).1

  abbrev pub heard : ℕ → S.State → Bool × S.State
  heard fd s = P.listen (some fd) 10 (bound fd s).1

  -- Each call that fails ends the process.
  unfoldable pub open_listener : S.State → Outcome (Fd × S.State)
  open_listener s = elim (S.socket s).0 [
    | none ↦ exited (none, (S.socket s).1)
    | some fd ↦
        if (reused fd s).0
        then if (bound fd s).0
          then if (heard fd s).0
            then finished (some fd, (heard fd s).1)
            else exited (some fd, (heard fd s).1)
          else exited (some fd, (bound fd s).1)
        else exited (some fd, (reused fd s).1)
  ]

  -- The variables that `main` reaches in its loop.
  pub data Serves (select : Selecting S) (s : S.State) (w : Server S) : Type 0 where
    serves :
        {fd : ℕ} {ready : S.State} {v : Server S}
        → open_listener s ≡ finished (some fd, ready)
        → start_server S fd ready ≡ finished v
        → Reaches S select v w
        → Serves select s w

  -- All four calls that set up the listener have succeeded.
  pub record IsListening (s : S.State) : Type 0 where
    pub fd : ℕ
    pub created : (S.socket s).0 ≡ some fd
    pub reusable : (reused fd s).0 ≡ true
    pub named : (bound fd s).0 ≡ true
    pub listening : (heard fd s).0 ≡ true

  open_listener-IsListening :
      (s : S.State) (r : Fd × S.State) → open_listener s ≡ finished r → IsListening s
  unfolding open_listener
  open_listener-IsListening s r e = elim (Option-cases (S.socket s).0) [
    | inl null ↦
        let out : open_listener s ≡ exited (none, (S.socket s).1) = rw (null, open_listener) refl in
        absurd cc (out, e)
    | inr (fd, made) ↦ elim (Bool-cases (reused fd s).0) [
      | inr fails ↦
          let out : open_listener s ≡ exited (some fd, (reused fd s).1) =
            simp (made, fails, open_listener) in
          absurd cc (out, e)
      | inl done ↦ elim (Bool-cases (bound fd s).0) [
        | inr fails ↦
            let out : open_listener s ≡ exited (some fd, (bound fd s).1) =
              simp (made, done, fails, open_listener) in
            absurd cc (out, e)
        | inl done' ↦ elim (Bool-cases (heard fd s).0) [
          | inr fails ↦
              let out : open_listener s ≡ exited (some fd, (heard fd s).1) =
                simp (made, done, done', fails, open_listener) in
              absurd cc (out, e)
          | inl done'' ↦ record {
            fd = fd;
            created = made;
            reusable = done;
            named = done';
            listening = done'';
          }
        ]
      ]
    ]
  ]

  pub open_listener-finished :
      (s : S.State) (fd : ℕ) (ready : S.State)
      → open_listener s ≡ finished (some fd, ready)
      → ((S.socket s).0 ≡ some fd) × (ready ≡ (heard fd s).1)
  unfolding open_listener
  open_listener-finished s fd ready e =
      let l = open_listener-IsListening s (some fd, ready) e in
      let out : open_listener s ≡ finished (some l.fd, (heard l.fd s).1) =
        simp (l.created, l.reusable, l.named, l.listening, open_listener) in
      let same = finished-injective _ _ (sym e ∙ out) in
      let same_fd : fd ≡ l.fd = some-injective _ _ (ap (λ r. r.0) same) in
      (
        l.created ∙ ap some (sym same_fd),
        ap (λ r. r.1) same ∙ ap (λ k. (heard k s).1) (sym same_fd),
      )

  -- Whenever the loop runs, `socket`, `setsockopt`, `bind` to port 5000 and `listen` have succeeded, in
  -- that order, and in every round the listener stays in the set, `fdmax` bounds the set and is below
  -- 1024, and when a connection is in the set or is ready, `newsockfd` has a value, so that an answer is
  -- never written to a descriptor without one. `select` reports only members of the set.
  pub Serves-IsOpen :
      (select : Selecting S) (s : S.State) (w : Server S)
      → IsSelect S select
      → Serves select s w
      → IsListening s × IsOpen w
  Serves-IsOpen select s w K (serves {fd} {ready} {v} set_up start more) = (
    open_listener-IsListening s (some fd, ready) set_up,
    Reaches-IsOpen select v w K (start_server-IsOpen fd ready v start) more,
  )
