-- ===== src/Transfer/Listen.antt =====
-- The parent of the servers that fork: `main` of assignment 5's `Peer_Server.cpp`, the TCP server of
-- assignment 6's `server.cpp`, and `main` of the lab test's `server1.cpp`.
use assignments_computer_net.Base.{
  ℕ, ◌%◌, ◌^◌, ◌≡◌, refl, sym, subst, ◌∙◌, Bool, true, false, Bool-cases, Option-cases, inl, inr,
  Option, none, some, List, [], ◌∷◌, arith, ◌==◌, if◌then◌else◌,
}
use assignments_computer_net.Peer.Text.{Bytes, All}
use assignments_computer_net.Peer.Decimal.{atoi}
use assignments_computer_net.Transfer.System.{
  Fd, System, Outcome, finished, exited, undefined, finished-injective,
}

-- What these programs use besides. `bind`, `listen`, `fork` and `setsockopt` for SO_REUSEADDR
-- say whether they succeed; these three programs do not use what `listen` says.
pub record Processes (S : System) : Type 0 where
  pub bind : Fd → ℕ → S.State → Bool × S.State
  pub listen : Fd → ℕ → S.State → Bool × S.State
  pub set_reuse_addr : Fd → S.State → Bool × S.State
  pub fork : S.State → Bool × S.State

-- The variables of the parent, and the children that it started: the connection of each, and the system
-- as the child found it. A child serves its connection and ends.
pub record Parent (S : System) : Type 0 where
  pub sockfd : Fd
  pub children : List (ℕ × S.State)
  pub system : S.State

module _ (S : System) (P : Processes S) where
  abbrev parent_of : Fd → S.State → Parent S
  parent_of fd s = record { sockfd = fd; children = []; system = s }

  -- The socket that connections come in on.
  unfoldable pub set_up : ℕ → S.State → Outcome (Parent S)
  set_up portno s =
      let socket = S.socket s in
      elim socket.0 [
        | none ↦ exited (parent_of none socket.1)
        | some fd ↦
            let bound = P.bind (some fd) (portno % 2 ^ 16) socket.1 in
            if bound.0
            then finished (parent_of (some fd) (P.listen (some fd) 5 bound.1).1)
            else exited (parent_of (some fd) bound.1)
      ]

  -- `Peer_Server.cpp` takes its port from the command line, if there is one.
  unfoldable pub set_up_port : Option Bytes → S.State → Outcome (Parent S)
  unfolding set_up
  set_up_port none s = exited (parent_of none s)
  set_up_port (some text) s = elim (atoi text) [ none ↦ undefined | some portno ↦ set_up portno s ]

  -- One round of the loop in the parent. A `fork` that fails gives -1, which is not 0 either.
  unfoldable pub accept_round : Parent S → Outcome (Parent S)
  accept_round v =
      let newsockfd = S.accept v.sockfd v.system in
      elim newsockfd.0 [
        | none ↦ exited (record v { system = newsockfd.1 })
        | some fd ↦
            let pid = P.fork newsockfd.1 in
            finished (record v {
              children = if pid.0 then (fd, newsockfd.1) ∷ v.children else v.children;
              system = S.close (some fd) pid.1;
            })
      ]

  set_up-failed :
      (portno : ℕ) (s : S.State)
      → (S.socket s).0 ≡ none
      → set_up portno s ≡ exited (parent_of none (S.socket s).1)
  unfolding set_up
  set_up-failed portno s e = rw (e, set_up) refl

  module _ (portno : ℕ) (s : S.State) (fd : ℕ) (e : (S.socket s).0 ≡ some fd) where
    set_up-refused :
        (P.bind (some fd) (portno % 2 ^ 16) (S.socket s).1).0 ≡ false
        → set_up portno s
          ≡ exited (parent_of (some fd) (P.bind (some fd) (portno % 2 ^ 16) (S.socket s).1).1)
    unfolding set_up
    set_up-refused b = rw (e, b, set_up) refl

    set_up-bound :
        (P.bind (some fd) (portno % 2 ^ 16) (S.socket s).1).0 ≡ true
        → set_up portno s
          ≡ finished (
              parent_of
                (some fd)
                (P.listen (some fd) 5 (P.bind (some fd) (portno % 2 ^ 16) (S.socket s).1).1).1)
    unfolding set_up
    set_up-bound b = rw (e, b, set_up) refl

  accept_round-failed :
      (v : Parent S)
      → (S.accept v.sockfd v.system).0 ≡ none
      → accept_round v ≡ exited (record v { system = (S.accept v.sockfd v.system).1 })
  unfolding accept_round
  accept_round-failed v e = rw (e, accept_round) refl

  accept_round-came :
      (v : Parent S) (fd : ℕ)
      → (S.accept v.sockfd v.system).0 ≡ some fd
      → (let s1 = (S.accept v.sockfd v.system).1 in
          accept_round v
          ≡ finished (record v {
            children = if (P.fork s1).0 then (fd, s1) ∷ v.children else v.children;
            system = S.close (some fd) (P.fork s1).1;
          }))
  unfolding accept_round
  accept_round-came v fd e = rw (e, accept_round) refl

  -- The parents that a start leads to.
  pub data Runs (s : S.State) : Parent S → Type 0 where
    starts : {v : Parent S} (portno : ℕ) → set_up portno s ≡ finished v → Runs s v
    accepts : {v w : Parent S} → Runs s v → accept_round v ≡ finished w → Runs s w

  -- What the manual pages say of the open descriptors of the process: a new socket or connection gets a
  -- number that was not open.
  pub record IsTable : Type 0 where
    pub is_open : ℕ → S.State → Bool
    pub socket_opens :
        (s : S.State) (fd i : ℕ)
        → (S.socket s).0 ≡ some fd
        → is_open i (S.socket s).1 ≡ (if i == fd then true else is_open i s)
    pub accept_new :
        (l : Fd) (s : S.State) (fd : ℕ) → (S.accept l s).0 ≡ some fd → is_open fd s ≡ false
    pub accept_opens :
        (l : Fd) (s : S.State) (fd i : ℕ)
        → (S.accept l s).0 ≡ some fd
        → is_open i (S.accept l s).1 ≡ (if i == fd then true else is_open i s)
    pub close_closes :
        (fd i : ℕ) (s : S.State)
        → is_open i (S.close (some fd) s) ≡ (if i == fd then false else is_open i s)
    pub bind_keeps :
        (l : Fd) (portno i : ℕ) (s : S.State) → is_open i (P.bind l portno s).1 ≡ is_open i s
    pub listen_keeps : (l : Fd) (n i : ℕ) (s : S.State) → is_open i (P.listen l n s).1 ≡ is_open i s
    pub fork_keeps : (i : ℕ) (s : S.State) → is_open i (P.fork s).1 ≡ is_open i s

  module _ (T : IsTable) (s : S.State) where
    -- The parent has the listening socket open and what was open at the start, and nothing else, and each
    -- child began with its connection open.
    pub record IsTidy (v : Parent S) : Type 0 where
      pub listener : ℕ
      pub listening : v.sockfd ≡ some listener
      pub opened : (i : ℕ) → T.is_open i v.system ≡ (if i == listener then true else T.is_open i s)
      pub served : All (λ c. T.is_open c.0 c.1 ≡ true) v.children

    set_up-IsTidy : (portno : ℕ) (v : Parent S) → set_up portno s ≡ finished v → IsTidy v
    unfolding set_up
    set_up-IsTidy portno v e =
        let s1 = (S.socket s).1 in
        elim (Option-cases (S.socket s).0) [
          | inl null ↦ absurd cc (set_up-failed portno s null, e)
          | inr (fd, made) ↦
              let bound = P.bind (some fd) (portno % 2 ^ 16) s1 in
              elim (Bool-cases bound.0) [
                | inr refused ↦ absurd cc (set_up-refused portno s fd made refused, e)
                | inl done ↦
                    subst IsTidy
                      (finished-injective _ _ (sym (set_up-bound portno s fd made done) ∙ e))
                      (record {
                        listener = fd;
                        listening = refl;
                        opened = λ i.
                            T.listen_keeps (some fd) 5 i bound.1
                            ∙ (T.bind_keeps (some fd) (portno % 2 ^ 16) i s1
                                ∙ T.socket_opens s fd i made);
                        served = tt;
                      })
              ]
        ]

    -- A connection that the parent closes again.
    closed_again :
        (l : Fd) (v : S.State) (fd i : ℕ)
        → (S.accept l v).0 ≡ some fd
        → T.is_open i (S.close (some fd) (P.fork (S.accept l v).1).1) ≡ T.is_open i v
    closed_again l v fd i e = ground (
      arith,
      T.close_closes fd i (P.fork (S.accept l v).1).1,
      T.fork_keeps i (S.accept l v).1,
      T.accept_opens l v fd i e,
      T.accept_new l v fd e,
    )

    begun_open :
        (l : Fd) (v : S.State) (fd : ℕ)
        → (S.accept l v).0 ≡ some fd
        → T.is_open fd (S.accept l v).1 ≡ true
    begun_open l v fd e = ground (arith, T.accept_opens l v fd fd e)

    all_served :
        (b : Bool) (c : ℕ × S.State) (cs : List (ℕ × S.State))
        → T.is_open c.0 c.1 ≡ true
        → All (λ d. T.is_open d.0 d.1 ≡ true) cs
        → All (λ d. T.is_open d.0 d.1 ≡ true) (if b then c ∷ cs else cs)
    all_served true c cs o os = (o, os)
    all_served false c cs o os = os

    accept_round-IsTidy : (v w : Parent S) → IsTidy v → accept_round v ≡ finished w → IsTidy w
    accept_round-IsTidy v w t e = elim (Option-cases (S.accept v.sockfd v.system).0) [
      | inl null ↦ absurd cc (accept_round-failed v null, e)
      | inr (fd, came) ↦
          let s1 = (S.accept v.sockfd v.system).1 in
          subst IsTidy (finished-injective _ _ (sym (accept_round-came v fd came) ∙ e)) (record {
            listener = t.listener;
            listening = t.listening;
            opened = λ i. closed_again v.sockfd v.system fd i came ∙ t.opened i;
            served =
                all_served (P.fork s1).0 (fd, s1) v.children (begun_open v.sockfd v.system fd came)
                  t.served;
          })
    ]

    -- However many connections have come in, the parent has not kept one open, and each child began with
    -- its connection open.
    pub Runs-IsTidy : (v : Parent S) → Runs s v → IsTidy v
    Runs-IsTidy _ (starts {v} portno e) = set_up-IsTidy portno v e
    Runs-IsTidy _ (accepts {v} {w} r e) = accept_round-IsTidy v w (Runs-IsTidy v r) e
