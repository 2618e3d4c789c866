-- ===== src/Peer/Reply.antt =====
-- The bootstrap program's answer, and how a peer reads it.
use assignments_computer_net.Base.{
  ℕ, zero, suc, ◌+◌, ◌<◌, ◌≡◌, ◌≢◌, refl, ap, sym, ◌∙◌, ◌⊎◌, inl, inr, true, not, ◌&&◌, Option,
  none, some, [], ◌∷◌, ◌++◌, arith, length, ◌>>=◌, append_assoc, >>=-some, if◌then◌else◌,
  Bool-cases, length-append, Option-cases, append-nil,
}
use assignments_computer_net.Peer.Text.{
  Bytes, space, All, Lacks, Lacks-append, Stream, open_stream, getline, getline-append, split_at,
}
use assignments_computer_net.Peer.Map.{FileMap, insert, insert-append, Continues, IsSorted}
use assignments_computer_net.Peer.Node.{Node}

-- `__init.cpp`: each entry of the map in its order, with a space behind the key and the value.
entries : FileMap → Bytes
entries [] = []
entries ((k, v) ∷ m) = k ++ space ∷ (v ++ space ∷ entries m)

pub reply : Node → Bytes
unfolding entries
reply n = n.scr ++ space ∷ (n.pdr ++ space ∷ entries n.my_file_info)

-- `server.cpp`: `while (getline (iss_1, key, ' '))`, with fuel for the rounds.
read_info : ℕ → Bytes → Bytes → Stream → FileMap → Option FileMap
read_info zero key val s m = none
read_info (suc fuel) key val s m =
    let k = getline space key s in
    let v = getline space val k.1 in
    let more = read_info fuel k.0 v.0 v.1 (insert k.0 v.0 m) in if k.1.failed then some m else more

pub read_reply : Node → Bytes → Option Node
unfolding read_info
read_reply n msg = do
  let first = getline space n.scr (open_stream msg)
  let second = getline space n.pdr first.1
  info ← read_info (suc (suc (length msg))) [] [] second.1 n.my_file_info
  some (record n { scr = first.0; pdr = second.0; my_file_info = info })

-- What a stream has still to give: it falls at each successful `getline`.
weight : Stream → ℕ
weight s = if not s.eof && not s.failed then length s.rest + 1 else 0

split_at-length : (d : ℕ) (s rest : Bytes) → (split_at d s).1 ≡ some rest → length rest < length s
unfolding split_at
split_at-length d [] rest e = ground arith
split_at-length d (c ∷ s) rest e = ground (arith, split_at-length d s rest)

getline-weight :
    (d : ℕ) (old : Bytes) (s : Stream)
    → ((getline d old s).1.failed ≡ true) ⊎ (weight (getline d old s).1 < weight s)
unfolding getline weight
getline-weight d old s = elim (Option-cases (split_at d s.rest).1) [
  | inl last ↦ ground (arith, last)
  | inr (rest, more) ↦ ground (arith, more, split_at-length d s.rest rest more)
]

weight-failed : (s : Stream) → s.failed ≡ true → weight s ≡ 0
unfolding weight
weight-failed s f = ground arith

weight-open_stream : (msg : Bytes) → weight (open_stream msg) ≡ length msg + 1
unfolding weight
weight-open_stream msg = refl

read_info_total :
    (fuel : ℕ) (key val : Bytes) (s : Stream) (m : FileMap)
    → weight s < fuel
    → (m' : FileMap) × (read_info fuel key val s m ≡ some m')
unfolding read_info
read_info_total zero key val s m h = absurd (omega arith)
read_info_total (suc fuel) key val s m h =
    let k = getline space key s in
    let v = getline space val k.1 in
    elim (Bool-cases k.1.failed) [
      | inl end ↦ (m, rw end refl)
      | inr more ↦
          let less : weight v.1 < fuel =
            ground (
              arith,
              getline-weight space key s,
              getline-weight space val k.1,
              weight-failed v.1,
            ) in
          let rest = read_info_total fuel k.0 v.0 v.1 (insert k.0 v.0 m) less in
          (rest.0, rw more rest.1)
    ]

-- A peer finishes reading any text at all: the fuel, two more than its length, is enough.
pub read_reply_total : (n : Node) (msg : Bytes) → (n' : Node) × (read_reply n msg ≡ some n')
unfolding read_reply
read_reply_total n msg =
    let first = getline space n.scr (open_stream msg) in
    let second = getline space n.pdr first.1 in
    let less : weight second.1 < suc (suc (length msg)) = ground (
      arith,
      weight-open_stream msg,
      getline-weight space n.scr (open_stream msg),
      getline-weight space n.pdr first.1,
      weight-failed first.1,
      weight-failed second.1,
    ) in
    let info = read_info_total (suc (suc (length msg))) [] [] second.1 n.my_file_info less in
    (record n { scr = first.0; pdr = second.0; my_file_info = info.0 }, >>=-some _ _ _ info.1)

-- Both parts of every entry are without spaces.
abbrev pub LackSpaces : FileMap → Type 0
LackSpaces [] = Unit {0}
LackSpaces ((k, v) ∷ m) = Lacks space k × Lacks space v × LackSpaces m

read_info-entries :
    (fuel : ℕ) (key val : Bytes) (m before : FileMap)
    → length (entries m) < fuel
    → LackSpaces m
    → Continues before m
    → read_info fuel key val (open_stream (entries m)) before ≡ some (before ++ m)
unfolding read_info entries
read_info-entries zero key val m before h l c = absurd (omega arith)
read_info-entries (suc fuel) key val [] before h l c =
    unfold getline split_at in ap some (sym (append-nil before))
read_info-entries (suc fuel) key val ((k, v) ∷ m) before h l c =
    rw
      (
        getline-append space key k (v ++ space ∷ entries m) l.0,
        getline-append space val v (entries m) l.1,
        insert-append k v before c.0,
      )
      (read_info-entries fuel k v m (before ++ (k, v) ∷ [])
          (omega (
            arith,
            length-append k (space ∷ (v ++ space ∷ entries m)),
            length-append v (space ∷ entries m),
          ))
          l.2 c.1
        ∙ ap some (append_assoc before ((k, v) ∷ []) m))

-- A peer without a file map reads the bootstrap program's answer back: its successor, its
-- predecessor, and its part of the file map, when no name has a space and the map that was sent is
-- in the order of its keys, as a `std::map` is.
pub read_reply-reply :
    (n sent : Node)
    → n.my_file_info ≡ []
    → Lacks space sent.scr
    → Lacks space sent.pdr
    → LackSpaces sent.my_file_info
    → IsSorted sent.my_file_info
    → read_reply n (reply sent)
      ≡ some (record n { scr = sent.scr; pdr = sent.pdr; my_file_info = sent.my_file_info })
unfolding read_reply reply
read_reply-reply n sent new ss ps l sorted =
    let rest = entries sent.my_file_info in
    let long : length rest < suc (suc (length (reply sent))) =
      unfold reply in
      omega (
        arith,
        length-append sent.scr (space ∷ (sent.pdr ++ space ∷ rest)),
        length-append sent.pdr (space ∷ rest),
      ) in
    simp (
      getline-append space n.scr sent.scr (sent.pdr ++ space ∷ rest) ss,
      getline-append space n.pdr sent.pdr rest ps,
      new,
      read_info-entries _ [] [] sent.my_file_info [] long l sorted,
    )

entries-Lacks :
    (d : ℕ) (m : FileMap) → d ≢ space → All (λ e. Lacks d e.0 × Lacks d e.1) m → Lacks d (entries m)
unfolding entries
entries-Lacks d [] other h = tt
entries-Lacks d ((k, v) ∷ m) other h = Lacks-append d k (space ∷ (v ++ space ∷ entries m)) h.0.0 (
  λ e. other (sym e),
  Lacks-append d v (space ∷ entries m) h.0.1 (λ e. other (sym e), entries-Lacks d m other h.1),
)

-- A byte that no part has, nor is the space, is not in the answer.
pub reply-Lacks :
    (d : ℕ) (n : Node)
    → d ≢ space
    → Lacks d n.scr
    → Lacks d n.pdr
    → All (λ e. Lacks d e.0 × Lacks d e.1) n.my_file_info
    → Lacks d (reply n)
unfolding reply
reply-Lacks d n other s p h =
    let rest = entries n.my_file_info in
    Lacks-append d n.scr (space ∷ (n.pdr ++ space ∷ rest)) s (
      λ e. other (sym e),
      Lacks-append d n.pdr (space ∷ rest) p
          (λ e. other (sym e), entries-Lacks d n.my_file_info other h),
    )
