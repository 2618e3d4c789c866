-- ===== src/Examples/Toy.antt =====
-- A small ns-3: a packet is a list of fields, the queue holds three packets, the channel accepts
-- all, and the random variable counts.
use assignments_computer_net.Base.{
  ℕ, zero, suc, ◌+◌, ◌-◌, ◌*◌, ◌%◌, ◌≡◌, refl, Bool, true, false, Option, none, some, List, [], ◌∷◌,
  ◌++◌, arith, ltb, ◌==◌, if◌then◌else◌, length, length-append, ap, ◌∙◌, ◌↔◌,
}
use assignments_computer_net.Backoff.{Random, IsUniform}
use assignments_computer_net.Csma.Platform.{
  Platform, Wire, idle, transmitting, EthernetHeader, IsFifo, IsChannel, IsWilling, IsPacketFormat,
}

abbrev toy_value : ℕ → ℕ → ℕ → ℕ
toy_value r lo hi = if ltb lo hi then lo + r % (hi - lo) else lo

abbrev pub toy_random : Random
toy_random = record {
  Time = ℕ;
  micro_seconds = λ n. n * 1000;
  scale = λ n t. n * t;
  Rng = ℕ;
  fresh = 5;
  get_value = λ r lo hi. (toy_value r lo hi, r + 1);
  set_stream = λ s r. s;
}

pub toy_random-IsUniform : IsUniform toy_random
toy_random-IsUniform = record {
  lower = λ r lo hi h. ground arith;
  upper = λ r lo hi h. grind arith;
  single = λ r n. ground arith;
}

abbrev pub Fields : Type 0
Fields = List ℕ

abbrev zeros : ℕ → Fields
zeros zero = []
zeros (suc n) = 0 ∷ zeros n

abbrev keep_first : ℕ → Fields → Fields
keep_first zero p = []
keep_first (suc n) [] = []
keep_first (suc n) (x ∷ p) = x ∷ keep_first n p

abbrev toy_remove_llc : Fields → ℕ × Fields
toy_remove_llc (t ∷ _ ∷ _ ∷ _ ∷ _ ∷ _ ∷ _ ∷ _ ∷ p) = (t, p)
toy_remove_llc p = (0, p)

abbrev toy_remove_ethernet : Fields → EthernetHeader ℕ × Fields
toy_remove_ethernet (s ∷ d ∷ l ∷ p) = (record { source = s; destination = d; length_type = l }, p)
toy_remove_ethernet p = (record { source = 0; destination = 0; length_type = 0 }, p)

-- Whether the check sequence is enabled, and its value.
abbrev ToyTrailer : Type 0
ToyTrailer = Bool × ℕ

abbrev toy_remove_trailer : Fields → ToyTrailer × Fields
toy_remove_trailer [] = ((false, 0), [])
toy_remove_trailer (x ∷ p) = ((false, x), p)

abbrev toy_dequeue : List Fields → Option Fields × List Fields
toy_dequeue [] = (none, [])
toy_dequeue (p ∷ q) = (some p, q)

abbrev toy_is_empty : List Fields → Bool
toy_is_empty [] = true
toy_is_empty (p ∷ q) = false

abbrev pub toy : Platform
toy = record {
  random = toy_random;
  Packet = Fields;
  Mac = ℕ;
  get_size = length;
  add_zeros_at_end = λ n p. p ++ zeros n;
  remove_at_end = λ n p. keep_first (length p - n) p;
  add_llc = λ t p. t ∷ 0 ∷ 0 ∷ 0 ∷ 0 ∷ 0 ∷ 0 ∷ 0 ∷ p;
  remove_llc = toy_remove_llc;
  add_ethernet = λ h p. h.source ∷ h.destination ∷ h.length_type ∷ p;
  remove_ethernet = toy_remove_ethernet;
  Trailer = ToyTrailer;
  new_trailer = (false, 0);
  enable_fcs = λ t. (true, t.1);
  calc_fcs = λ p t. (t.0, if t.0 then length p else 0);
  check_fcs = λ p t. if t.0 then t.1 == length p else true;
  add_trailer = λ t p. t.1 ∷ p;
  remove_trailer = toy_remove_trailer;
  checksum_enabled = true;
  Address = ℕ;
  convert_from = λ a. a;
  to_address = λ a. a;
  is_broadcast = λ a. a == 255;
  is_group = λ a. ltb 200 a;
  same_mac = λ a b. a == b;
  Queue = List Fields;
  enqueue = λ p q. if ltb (length q) 3 then (true, q ++ p ∷ []) else (false, q);
  dequeue = toy_dequeue;
  is_empty = toy_is_empty;
  get_n_packets = length;
  Channel = Wire;
  Rate = ℕ;
  get_state = λ c. c;
  channel_start = λ c p id. (true, transmitting);
  channel_end = λ c. idle;
  channel_attach = λ c. (0, c);
  get_data_rate = λ c. 8;
  calculate_tx_time = λ r n. r * n;
  ErrorModel = Unit {0};
  is_corrupt = λ e p. (false, e);
}

pub toy_is_empty_iff : (q : List Fields) → (toy_is_empty q ≡ true) ↔ (q ≡ [])
toy_is_empty_iff [] = ground arith
toy_is_empty_iff (p ∷ q) = ground arith

pub toy_dequeue_lem :
    (q : List Fields) (p : Fields) (ps : List Fields)
    → q ≡ p ∷ ps
    → ((toy_dequeue q).0 ≡ some p) × ((toy_dequeue q).1 ≡ ps)
toy_dequeue_lem [] p ps e = ground arith
toy_dequeue_lem (x ∷ q) p ps e = ground arith

zeros-length : (n : ℕ) → length (zeros n) ≡ n
zeros-length zero = refl
zeros-length (suc n) = ap suc (zeros-length n)

length-zeros : (n : ℕ) (p : Fields) → length (p ++ zeros n) ≡ length p + n
length-zeros n p = omega (arith, length-append p (zeros n), zeros-length n)

keep_first-append : (p q : Fields) → keep_first (length p) (p ++ q) ≡ p
keep_first-append [] q = refl
keep_first-append (x ∷ p) q = ap (λ l. x ∷ l) (keep_first-append p q)

keep_first-zeros : (n : ℕ) (p : Fields) → keep_first (length (p ++ zeros n) - n) (p ++ zeros n) ≡ p
keep_first-zeros n p =
    let exact : length (p ++ zeros n) - n ≡ length p = omega (arith, length-zeros n p) in
    ap (λ k. keep_first k (p ++ zeros n)) exact ∙ keep_first-append p (zeros n)

unfoldable pub toy-IsFifo : IsFifo toy
toy-IsFifo = record {
  to_list = λ q. q;
  is_empty_iff = toy_is_empty_iff;
  get_n_packets_lem = λ q. refl;
  enqueue_lem = λ p q. ground arith;
  dequeue_lem = toy_dequeue_lem;
}

pub toy-IsChannel : IsChannel toy
toy-IsChannel = record { accepted = λ c p id h. refl }

pub toy-IsWilling : IsWilling toy
toy-IsWilling = λ c p id h. refl

pub toy-IsPacketFormat : IsPacketFormat toy
toy-IsPacketFormat = record {
  size_zeros = length-zeros;
  size_llc = λ t p. omega arith;
  remove-zeros = keep_first-zeros;
  remove-llc = λ t p h. refl;
  remove-ethernet = λ h p fits. refl;
  remove-trailer = λ t p. refl;
  check-calc = λ p. ground arith;
}
