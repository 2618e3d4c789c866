-- ===== src/Csma/Drain/Send.antt =====
-- A frame that is sent at an active device.
use mathlib.Core.Option.{some-injective}
use assignments_computer_net.Base.{
  ℕ, ◌+◌, ◌≤◌, ◌≡◌, refl, sym, subst, ap, ◌∙◌, inl, inr, Bool, true, false, not, Option, some, List,
  [], ◌∷◌, ◌++◌, arith, Bool-cases, Option-cases, if-true, if-false, if◌then◌else◌, ◌>>=◌, >>=-some,
  >>=-none,
}
use assignments_computer_net.Csma.Platform.{Platform, IsFifo, IsChannel, IsWilling}
use assignments_computer_net.Csma.Device.{
  TxState, ready, busy, gap, backoff, Device, emit, mac_tx, mac_tx_drop,
}
use assignments_computer_net.Csma.Invariant.{Phase, IsAttached}
use assignments_computer_net.Csma.Frame.{add_header}
use assignments_computer_net.Csma.Send.{send_from, queue_frame, start_if_ready}
use assignments_computer_net.Csma.Transmit.{check-pass, check-fail, is_ready}
use assignments_computer_net.Csma.Transmit.Steps.{moved, is_empty-cons}
use assignments_computer_net.Csma.Drain.{budget, rank, rank_at, IsServing, Settles}
use assignments_computer_net.Csma.Drain.Start.{transmit_start-Settles, Settles-le}
use assignments_computer_net.Csma.Drain.Fires.{IsActive}

module _ {P : Platform} (F : IsFifo P) (C : IsChannel P) (W : IsWilling P) where
  pub budget-append :
      (max : ℕ) (ps qs : List P.Packet) → budget max (ps ++ qs) ≡ budget max ps + budget max qs
  budget-append max [] qs = omega arith
  budget-append max (p ∷ ps) qs = omega (arith, budget-append max ps qs)

  -- What a send of one frame gives: the device is still enabled and serving, and has at most the budget
  -- of that frame more to do.
  abbrev pub Costs : Device P → Option (Device P) → Type 0
  Costs d = Settles F (rank F d + (d.backoff_params.max_retries + 2)) d.backoff_params.max_retries

  rank_at-append :
      {E : Type 0} (s : TxState) (es : List E) (max num : ℕ) (ps : List P.Packet) (p : P.Packet)
      → rank_at s es max num (ps ++ p ∷ []) ≤ rank_at s es max num ps + (max + 2)
  rank_at-append ready es max num ps p = omega arith
  rank_at-append busy [] max num ps p = omega arith
  rank_at-append busy (e ∷ es) max num ps p = omega (arith, budget-append max ps (p ∷ []))
  rank_at-append gap [] max num ps p = omega arith
  rank_at-append gap (e ∷ es) max num ps p = omega (arith, budget-append max ps (p ∷ []))
  rank_at-append backoff [] max num ps p = omega arith
  rank_at-append backoff (e ∷ es) max num ps p = omega (arith, budget-append max ps (p ∷ []))

  -- The device with one more frame in its queue.
  record IsQueued (d : Device P) (p : P.Packet) (d' : Device P) : Type 0 where
    wired : IsAttached d'
    tx_state : d'.tx_state ≡ d.tx_state
    current_pkt : d'.current_pkt ≡ d.current_pkt
    events : d'.events ≡ d.events
    backoff_params : d'.backoff_params ≡ d.backoff_params
    send_enable : d'.send_enable ≡ d.send_enable
    queue : F.to_list d'.queue ≡ F.to_list d.queue ++ p ∷ []

  queued_behind :
      (d d' : Device P) (p : P.Packet)
      → IsActive F C W d
      → IsQueued d p d'
      → is_ready d'.tx_state ≡ false
      → Costs d (start_if_ready d')
  unfolding start_if_ready
  queued_behind d d' p a q held = record {
    after = d';
    returns = rw held refl;
    low =
        rw (q.tx_state, q.events, q.backoff_params, q.queue)
          (rank_at-append d.tx_state d.events d.backoff_params.max_retries
            d.backoff_params.num_backoff_retries (F.to_list d.queue) p);
    serving = λ e.
        let free : d'.tx_state ≡ ready = q.tx_state ∙ (a.serving (sym q.events ∙ e)).0 in
        absurd (cc (ap is_ready free, held));
    enabled = q.send_enable ∙ a.on;
    same_max = ap (λ b. b.max_retries) q.backoff_params;
  }

  queued_first :
      (d d' : Device P) (p : P.Packet)
      → IsActive F C W d
      → IsQueued d p d'
      → d.tx_state ≡ ready
      → d.events ≡ []
      → F.to_list d.queue ≡ []
      → Costs d (start_if_ready d')
  unfolding start_if_ready
  queued_first d d' p a q s e l =
      let alone : F.to_list d'.queue ≡ p ∷ [] = q.queue ∙ ap (λ k. k ++ p ∷ []) l in
      let (got, rest) = F.dequeue_lem d'.queue p [] alone in
      let free : is_ready d'.tx_state ≡ true = rw (q.tx_state, s) refl in
      rw (free, is_empty-cons F C d'.queue p [] alone, got)
        (Settles-max (ap (λ b. b.max_retries) q.backoff_params) (
          Settles-le F C W (rw (rest, q.backoff_params) (omega arith)) (
            transmit_start-Settles F C W _ (record {
              attached = moved F C q.wired refl refl refl;
              state = inl (q.tx_state ∙ s);
              packet = p;
              holds = refl;
              silent = q.events ∙ e;
              on = q.send_enable ∙ a.on;
              fits = rw q.backoff_params a.fits;
            }))))
    where
      Settles-max :
          {b max max' : ℕ} {r : Option (Device P)}
          → max ≡ max'
          → Settles F b max r
          → Settles F b max' r
      Settles-max {b} {r = r} same h = subst (λ m. Settles F b m r) same h

  start_if_ready-Costs :
      (d d' : Device P) (p : P.Packet)
      → IsActive F C W d
      → IsQueued d p d'
      → Costs d (start_if_ready d')
  start_if_ready-Costs d d' p a q = go d.tx_state refl a.sound.phase
    where
      go :
          (s : TxState)
          → d.tx_state ≡ s
          → Phase P s d.current_pkt d.events d.channel
          → Costs d (start_if_ready d')
      go ready s (c, e) = queued_first d d' p a q s e (rw c at ((a.serving e).1))
      go busy s _ = queued_behind d d' p a q (rw (q.tx_state, s) refl)
      go gap s _ = queued_behind d d' p a q (rw (q.tx_state, s) refl)
      go backoff s _ = queued_behind d d' p a q (rw (q.tx_state, s) refl)

  -- The frames `ps` were accepted: each one costs at most its budget.
  pub record Moves (d : Device P) (ps : List P.Packet) (d' : Device P) : Type 0 where
    pub low : rank F d' ≤ rank F d + budget d.backoff_params.max_retries ps
    pub serving : IsServing F d'
    pub enabled : d'.send_enable ≡ true
    pub same_max : d'.backoff_params.max_retries ≡ d.backoff_params.max_retries

  abbrev accepted_list : P.Packet → Bool → List P.Packet
  accepted_list p b = if b then p ∷ [] else []

  abbrev MovesTo : Device P → P.Packet → Device P × Bool → Type 0
  MovesTo d p x = Moves d (accepted_list p x.1) x.0

  queued : Device P → P.Packet → Device P
  queued d p = record (emit (mac_tx p) d) { queue = (P.enqueue p d.queue).1 }

  queued-IsQueued :
      (d : Device P) (p : P.Packet)
      → IsActive F C W d
      → (P.enqueue p d.queue).0 ≡ true
      → IsQueued d p (queued d p)
  unfolding queued
  queued-IsQueued d p a yes' = record {
    wired = moved F C a.sound.attached refl refl refl;
    tx_state = refl;
    current_pkt = refl;
    events = refl;
    backoff_params = refl;
    send_enable = refl;
    queue = F.enqueue_lem p d.queue ∙ if-true _ _ _ yes';
  }

  queue_frame-MovesTo :
      (d : Device P) (p : P.Packet) (x : Device P × Bool)
      → IsActive F C W d
      → queue_frame p d ≡ some x
      → MovesTo d p x
  unfolding queue_frame queued
  queue_frame-MovesTo d p x a r = elim (Bool-cases (P.enqueue p d.queue).0) [
    | inl yes' ↦
        let c = start_if_ready-Costs d (queued d p) p a (queued-IsQueued d p a yes') in
        subst (MovesTo d p)
          (some-injective _ _ (sym (if-true _ _ _ yes' ∙ >>=-some _ _ c.after c.returns) ∙ r))
          (record {
            low = omega (arith, c.low);
            serving = c.serving;
            enabled = c.enabled;
            same_max = c.same_max;
          })
    | inr no' ↦
        let same : F.to_list (P.enqueue p d.queue).1 ≡ F.to_list d.queue =
          F.enqueue_lem p d.queue ∙ if-false _ _ _ no' in
        subst (MovesTo d p) (some-injective _ _ (sym (if-false _ _ _ no') ∙ r)) (record {
          low = rw same (omega arith);
          serving = rw same a.serving;
          enabled = a.on;
          same_max = refl;
        })
  ]

  -- `SendFrom` of an enabled device gets as far as the queue.
  send_from-queue_frame :
      (d : Device P) (packet : P.Packet) (src dest : P.Address) (protocol : ℕ) (x : Device P × Bool)
      → d.send_enable ≡ true
      → send_from d packet src dest protocol ≡ some x
      → (p : P.Packet) × (add_header d packet (P.convert_from src) (P.convert_from dest) protocol
          ≡ some p)
        × (queue_frame p d ≡ some x)
  unfolding send_from
  send_from-queue_frame d packet src dest protocol x on r =
      let framed = add_header d packet (P.convert_from src) (P.convert_from dest) protocol in
      let rest = λ (p : P.Packet). queue_frame p d in
      let enabled : not d.send_enable ≡ false = rw on refl in
      let body : Option (Device P × Bool) =
        if not d.send_enable
        then some (emit (mac_tx_drop packet) d, false)
        else (framed >>= rest) in
      elim (Bool-cases d.link_up) [
        | inr down ↦ absurd (cc (check-fail d.link_up body down, r))
        | inl up ↦
            let runs : (framed >>= rest) ≡ some x =
              sym (check-pass d.link_up body up ∙ if-false _ _ _ enabled) ∙ r in
            elim (Option-cases framed) [
              | inl bad ↦ absurd (cc (>>=-none framed rest bad, runs))
              | inr (p, ok) ↦ (p, ok, sym (>>=-some framed rest p ok) ∙ runs)
            ]
      ]

  pub send_from-Moves :
      (d : Device P) (packet : P.Packet) (src dest : P.Address) (protocol : ℕ) (x : Device P × Bool)
      (p : P.Packet)
      → IsActive F C W d
      → (x.1 ≡ true
          → add_header d packet (P.convert_from src) (P.convert_from dest) protocol ≡ some p)
      → send_from d packet src dest protocol ≡ some x
      → Moves d (accepted_list p x.1) x.0
  send_from-Moves d packet src dest protocol x p a f r =
      let (q, ok, queue) = send_from-queue_frame d packet src dest protocol x a.on r in
      let m = queue_frame-MovesTo d q x a queue in
      elim (Bool-cases x.1) [
        | inl yes' ↦
            let same : q ≡ p = some-injective _ _ (sym ok ∙ f yes') in
            subst (λ s. Moves d (accepted_list s x.1) x.0) same m
        | inr no' ↦ rw no' (rw no' at m)
      ]
