-- ===== src/LabTest/Client.antt =====
-- `get_file` of `cli/client.cpp`.
pub mod Whole
use assignments_computer_net.Base.{
  ℕ, zero, suc, ◌+◌, ◌*◌, ◌/◌, ◌%◌, ◌^◌, ◌≡◌, ◌≢◌, ◌<◌, ◌≤◌, refl, sym, ap, subst, ◌∙◌, Bool, true,
  false, Option, none, some, List, [], ◌∷◌, ◌++◌, length, arith, ltb, ltb_of_lt, ◌==◌,
  if◌then◌else◌, ◌>>=◌, append_assoc, append-nil, length-append, if-true, if-false,
}
use assignments_computer_net.Peer.Text.{Bytes, colon, open_stream, getline}
use assignments_computer_net.Peer.Decimal.{atoi}
use assignments_computer_net.Peer.Search.{codes}
use assignments_computer_net.Transfer.System.{
  Fd, System, IsStream, Outcome, finished, exited, undefined, unfinished, c_string,
}
use assignments_computer_net.Transfer.Copy.{
  written, after_read, IsReliable, Read, failed, ended, more, Read-cases,
}

-- `(total * 100) / file_size` in ints: undefined past the range of an int and for the size 0.
pub percent : ℕ → ℕ → Option ℕ
percent total file_size =
    if file_size == 0
    then none
    else if ltb (total * 100) (2 ^ 31)
    then some (total * 100 / file_size)
    else none

module _ (S : System) where
  -- The numbers that were printed, the last one first.
  abbrev pub Progress : Type 0
  Progress = List ℕ × S.State

  -- One `write` of the loop, with what the call of `read` in front of it gave.
  put : Fd → Option Bytes → S.State → Option ℕ × S.State
  put fd none s = S.write_minus_one fd s
  put fd (some t) s = S.write fd t s

  -- The loop goes on after a read that gave bytes.
  go_on : Option Bytes → Outcome Progress → List ℕ → S.State → Outcome Progress
  go_on none rest shown s = finished (shown, s)
  go_on (some []) rest shown s = finished (shown, s)
  go_on (some (c ∷ t)) rest shown s = rest

  unfoldable pub download : ℕ → Fd → Fd → ℕ → ℕ → List ℕ → S.State → Outcome Progress
  unfolding percent put go_on
  download zero sock fd file_size total shown s = unfinished
  download (suc fuel) sock fd file_size total shown s =
      let num = S.read sock 1024 s in
      let d = put fd num.0 num.1 in
      elim d.0 [
        | none ↦ go_on num.0 (download fuel sock fd file_size total shown d.1) shown d.1
        | some k ↦ elim (percent (total + k) file_size) [
          | none ↦ undefined
          | some p ↦
              go_on num.0 (download fuel sock fd file_size (total + k) (p ∷ shown) d.1) (p ∷ shown)
                d.1
        ]
      ]

  unfoldable pub close_both : Fd → Fd → Outcome Progress → Outcome Progress
  close_both sock fd (finished (shown, s)) = finished (shown, S.close sock (S.close fd s))
  close_both sock fd (exited p) = exited p
  close_both sock fd undefined = undefined
  close_both sock fd unfinished = unfinished

  -- The size as text; a read that fails leaves the buffer zero.
  unfoldable pub size_text : Option Bytes → Option Bytes
  size_text none = some []
  size_text (some buffer) = c_string 1024 buffer

  unfoldable pub receive_sized : ℕ → Bytes → Fd → S.State → Outcome Progress
  unfolding download close_both size_text
  receive_sized fuel name sock s =
      let fdes = S.open_write name s in
      let num = S.read sock 1024 fdes.1 in
      elim (size_text num.0 >>= atoi) [
        | none ↦ undefined
        | some file_size ↦ close_both sock fdes.0 (download fuel sock fdes.0 file_size 0 [] num.1)
      ]

  -- A wrong address is reported only: the connection goes to the address 0 then.
  unfoldable pub get_file : ℕ → Bytes → ℕ → Bytes → S.State → Outcome Progress
  unfolding receive_sized
  get_file fuel ip_ser portno name s =
      let sockfd = S.socket s in
      elim sockfd.0 [
        | none ↦ exited ([], sockfd.1)
        | some sock ↦
            let address = if S.inet_aton ip_ser then ip_ser else codes "0.0.0.0" in
            let c = S.connect (some sock) address (portno % 2 ^ 16) sockfd.1 in
            let n = S.write (some sock) name c.1 in
            if c.0
            then elim n.0 [
              | none ↦ exited ([], n.1)
              | some k ↦ receive_sized fuel name (some sock) n.1
            ]
            else exited ([], c.1)
      ]

-- `main`, with the two words that it reads: the server's `ip:port` and the name of the file.
unfoldable pub client_main : (S : System) → ℕ → Bytes → Bytes → S.State → Outcome (Progress S)
client_main S fuel client_id file_name s =
    let ip_no = getline colon [] (open_stream client_id) in
    let po_no = getline 0 [] ip_no.1 in
    elim (atoi po_no.0) [
      | none ↦ undefined
      | some portno ↦ get_file S fuel ip_no.0 portno file_name s
    ]

percent-fits :
    (total size : ℕ)
    → 0 < size
    → total * 100 < 2 ^ 31
    → percent total size ≡ some (total * 100 / size)
unfolding percent
percent-fits total size h l =
    let other : (size == 0) ≡ false = ground arith in
    let fits : ltb (total * 100) (2 ^ 31) ≡ true = ltb_of_lt (total * 100) (2 ^ 31) l in
    rw (other, fits, percent) refl

pub percent-empty : (total : ℕ) → percent total 0 ≡ none
unfolding percent
percent-empty total = refl

module _ (S : System) (fuel : ℕ) (sock fd : Fd) (size total : ℕ) (shown : List ℕ)
    (s : S.State) where
  download-more :
      (c k p : ℕ) (t : Bytes)
      → (S.read sock 1024 s).0 ≡ some (c ∷ t)
      → (S.write fd (c ∷ t) (S.read sock 1024 s).1).0 ≡ some k
      → percent (total + k) size ≡ some p
      → download S (suc fuel) sock fd size total shown s
        ≡ download S fuel sock fd size
            (total + k)
            (p ∷ shown)
            (S.write fd (c ∷ t) (S.read sock 1024 s).1).1
  unfolding download put go_on
  download-more c k p t r w e = rw (r, w, e, r, download, put, go_on) refl

  download-ended :
      (k p : ℕ)
      → (S.read sock 1024 s).0 ≡ some []
      → (S.write fd [] (S.read sock 1024 s).1).0 ≡ some k
      → percent (total + k) size ≡ some p
      → download S (suc fuel) sock fd size total shown s
        ≡ finished (p ∷ shown, (S.write fd [] (S.read sock 1024 s).1).1)
  unfolding download put go_on
  download-ended k p r w e = rw (r, w, e, r, download, put, go_on) refl

  pub download-undefined :
      (t : Bytes) (k : ℕ)
      → (S.read sock 1024 s).0 ≡ some t
      → (S.write fd t (S.read sock 1024 s).1).0 ≡ some k
      → percent (total + k) size ≡ none
      → download S (suc fuel) sock fd size total shown s ≡ undefined
  unfolding download put go_on
  download-undefined t k r w e = rw (r, w, e, download, put, go_on) refl

module _ (S : System) (L : IsStream S) where
  pub download-receives :
      (fuel : ℕ) (sock fd : Fd) (size total n : ℕ) (shown : List ℕ) (s : S.State)
      → IsReliable S sock fd
      → 0 < size
      → total + length (L.pending sock s) ≡ n
      → n * 100 < 2 ^ 31
      → length (L.pending sock s) < fuel
      → (shown' : List ℕ) × (s' : S.State) × (download S fuel sock fd size total shown s
          ≡ finished ((n * 100 / size) ∷ shown', s'))
        × (L.sent fd s' ≡ L.sent fd s ++ L.pending sock s)
  download-receives zero sock fd size total n shown s R pos whole small enough =
      absurd (omega arith)
  download-receives (suc fuel) sock fd size total n shown s R pos whole small enough =
      elim (Read-cases S (S.read sock 1024 s).0) [
        | failed e ↦ cc ((R.reads 1024 s).1, e)
        | ended e ↦
            let gone : L.pending sock s ≡ [] = L.read_end sock 1024 s (omega arith) e in
            let all : total + 0 ≡ n = omega (arith, whole, ap length gone) in
            let shows : percent (total + 0) size ≡ some (n * 100 / size) =
              ap (λ k. percent k size) all ∙ percent-fits n size pos small in
            (
              shown,
              _,
              download-ended S fuel sock fd size total shown s 0 (n * 100 / size) e
                  (R.writes [] (S.read sock 1024 s).1) shows,
              written S L sock fd 1024 s [] R e ∙ ap (λ l. L.sent fd s ++ l) (sym gone),
            )
        | more c t e ↦
            let k = length (c ∷ t) in
            let next = (S.write fd (c ∷ t) (S.read sock 1024 s).1).1 in
            let front = after_read S L sock fd 1024 s c t e in
            let whole' : total + k + length (L.pending sock next) ≡ n =
              omega (arith, whole, ap length front, length-append (c ∷ t) (L.pending sock next)) in
            let p = (total + k) * 100 / size in
            let (shown', s', done, sent) =
              download-receives fuel sock fd size (total + k) n (p ∷ shown) next R pos whole' small
                (omega
                  (arith, enough, ap length front, length-append (c ∷ t) (L.pending sock next))) in
            (
              shown',
              s',
              download-more S fuel sock fd size total shown s c k p t e
                    (R.writes (c ∷ t) (S.read sock 1024 s).1)
                    (percent-fits (total + k) size pos (omega (arith, whole', small)))
                  ∙ done,
              sent
                  ∙ (ap (λ l. l ++ L.pending sock next) (written S L sock fd 1024 s (c ∷ t) R e)
                      ∙ (append_assoc (L.sent fd s) (c ∷ t) (L.pending sock next)
                          ∙ ap (λ l. L.sent fd s ++ l) (sym front))),
            )
      ]
