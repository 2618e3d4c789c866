-- ===== src/LabTest/Answer.antt =====
-- How `server1.cpp` and `server2.cpp` answer a request: the size of the file in a block of 1024
-- bytes, then the file. The output on the terminal and the command `md5sum` are not modelled.
use assignments_computer_net.Base.{
  inl, inr, Bool-cases, Option-cases, ℕ, zero, suc, ◌-◌, ◌^◌, ◌≡◌, ◌≢◌, ◌<◌, refl, sym, ap, subst,
  ◌∙◌, true, none, some, [], ◌∷◌, ◌++◌, append_assoc, length, take_all, arith, ltb, ltb_of_lt,
  if◌then◌else◌,
}
use assignments_computer_net.Peer.Text.{Bytes}
use assignments_computer_net.Peer.Decimal.{print_int}
use assignments_computer_net.Transfer.System.{
  finished-injective, Fd, System, IsStream, Outcome, finished, exited, undefined, unfinished,
  c_string,
}
use assignments_computer_net.Transfer.Copy.{copy, IsReliable, copy-IsReliable, copy_elsewhere}

abbrev pub zeros : ℕ → Bytes
zeros zero = []
zeros (suc n) = 0 ∷ zeros n

abbrev pub newline : ℕ
newline = 10

-- `bzero`, `sprintf ("%d\n")`, and the whole buffer is written.
abbrev pub file_header : ℕ → Bytes
file_header file_size = print_int file_size ++ newline ∷ zeros (1023 - length (print_int file_size))

module _ (S : System) where
  send_sized : ℕ → Bytes → ℕ → Fd → S.State → Outcome S.State
  send_sized fuel name file_size sock s =
      let fdes = S.open_read name s in
      let d = S.write sock (file_header file_size) fdes.1 in
      elim (copy S fuel 1024 fdes.0 sock d.1) [
        | none ↦ unfinished
        | some s' ↦ finished (S.close fdes.0 s')
      ]

  -- The name is copied to a buffer of 100 bytes; a size from 2 ^ 31 on does not fit the int.
  unfoldable pub answer_request : ℕ → Bytes → Fd → S.State → Outcome S.State
  unfolding send_sized
  answer_request fuel name sock s =
      if ltb (length name) 100
      then elim (S.stat_size name s) [
        | none ↦ exited s
        | some st_size ↦
            if ltb st_size (2 ^ 31) then send_sized fuel name st_size sock s else undefined
      ]
      else undefined

  -- How an answer that ends has gone: the file was opened, the block and the file were written, and the file
  -- was closed.
  pub record Answered (fuel : ℕ) (name : Bytes) (sock : Fd) (s s' : S.State) : Type 0 where
    pub size : ℕ
    pub copied : S.State
    pub copies :
        copy S fuel 1024
          (S.open_read name s).0
          sock
          (S.write sock (file_header size) (S.open_read name s).1).1
        ≡ some copied
    pub closed : s' ≡ S.close (S.open_read name s).0 copied

  send_sized-Answered :
      (fuel : ℕ) (name : Bytes) (size : ℕ) (sock : Fd) (s s' : S.State)
      → send_sized fuel name size sock s ≡ finished s'
      → Answered fuel name sock s s'
  unfolding send_sized
  send_sized-Answered fuel name size sock s s' e =
      let fdes = S.open_read name s in
      let d = S.write sock (file_header size) fdes.1 in
      elim (Option-cases (copy S fuel 1024 fdes.0 sock d.1)) [
        | inl long ↦
            let out : send_sized fuel name size sock s ≡ unfinished = rw (long, send_sized) refl in
            absurd (cc (out, e))
        | inr (copied, copies) ↦
            let out : send_sized fuel name size sock s ≡ finished (S.close fdes.0 copied) =
              rw (copies, send_sized) refl in
            record {
              size = size;
              copied = copied;
              copies = copies;
              closed = finished-injective _ _ (sym e ∙ out);
            }
      ]

  pub answer_request-Answered :
      (fuel : ℕ) (name : Bytes) (sock : Fd) (s s' : S.State)
      → answer_request fuel name sock s ≡ finished s'
      → Answered fuel name sock s s'
  unfolding answer_request
  answer_request-Answered fuel name sock s s' e = elim (Bool-cases (ltb (length name) 100)) [
    | inr long ↦
        let out : answer_request fuel name sock s ≡ undefined = rw (long, answer_request) refl in
        absurd (cc (out, e))
    | inl short ↦ elim (Option-cases (S.stat_size name s)) [
      | inl missing ↦
          let out : answer_request fuel name sock s ≡ exited s =
            simp (short, missing, answer_request) in
          absurd (cc (out, e))
      | inr (size, stat) ↦ elim (Bool-cases (ltb size (2 ^ 31))) [
        | inr big ↦
            let out : answer_request fuel name sock s ≡ undefined =
              simp (short, stat, big, answer_request) in
            absurd (cc (out, e))
        | inl small ↦
            let out : answer_request fuel name sock s ≡ send_sized fuel name size sock s =
              simp (short, stat, small, answer_request) in
            send_sized-Answered fuel name size sock s s' (sym out ∙ e)
      ]
    ]
  ]

  -- The child of `server1.cpp`.
  pub serve_child : ℕ → Fd → S.State → Outcome S.State
  serve_child fuel sock s =
      let n = S.read sock 1024 s in
      elim n.0 [
        | none ↦ exited n.1
        | some buffer ↦ elim (c_string 1024 buffer) [
          | none ↦ undefined
          | some name ↦ answer_request fuel name sock n.1
        ]
      ]

module _ (S : System) (L : IsStream S) where
  send_sized-sends :
      (fuel : ℕ) (name : Bytes) (size : ℕ) (sock : Fd) (fd : ℕ) (s : S.State)
      → (S.open_read name s).0 ≡ some fd
      → IsReliable S (some fd) sock
      → length (L.file name s) < fuel
      → (s' : S.State) × (send_sized S fuel name size sock s ≡ finished s')
        × (L.sent sock s' ≡ L.sent sock s ++ (file_header size ++ L.file name s))
        × ((g : Fd) → g ≢ sock → L.sent g s' ≡ L.sent g s)
  unfolding send_sized
  send_sized-sends fuel name size sock fd s e R enough =
      let s1 = (S.open_read name s).1 in
      let header = file_header size in
      let s2 = (S.write sock header s1).1 in
      let text : L.pending (some fd) s2 ≡ L.file name s =
        L.write_reads_nothing sock (some fd) header s1 ∙ L.open_read_file name s fd e in
      let headed : L.sent sock s2 ≡ L.sent sock s ++ header =
        L.write_gives sock header s1 (length header) (R.writes header s1)
        ∙ (ap (λ l. L.sent sock s1 ++ l) (take_all header)
            ∙ ap (λ l. l ++ header) (L.open_read_sends_nothing name sock s)) in
      let (s', done, sent) =
        copy-IsReliable S L fuel 1024 (some fd) sock s2 (omega arith) R
          (subst (λ l. length l < fuel) (sym text) enough) in
      let done' : copy S fuel 1024 (S.open_read name s).0 sock s2 ≡ some s' =
        subst (λ f. copy S fuel 1024 f sock s2 ≡ some s') (sym e) done in
      (
        S.close (S.open_read name s).0 s',
        rw (done', send_sized) refl,
        L.close_sends_nothing (S.open_read name s).0 sock s'
            ∙ (sent
                ∙ (ap (λ l. l ++ L.pending (some fd) s2) headed
                    ∙ (append_assoc (L.sent sock s) header (L.pending (some fd) s2)
                        ∙ ap (λ l. L.sent sock s ++ (header ++ l)) text))),
        λ g other.
            L.close_sends_nothing (S.open_read name s).0 g s'
            ∙ (copy_elsewhere S L fuel 1024 (some fd) sock g s2 s' R other done
                ∙ (L.write_elsewhere sock g header s1 other ∙ L.open_read_sends_nothing name g s)),
      )

  -- A request is answered with the block that has the size of the file, and the file, behind what the
  -- socket had sent, when the name has at most 99 bytes, the file is smaller than 2 ^ 31 bytes and
  -- opens, and the reads of the file and the writes to the socket are complete; as many rounds as the
  -- file has bytes, and one more, are enough.
  pub answer_request-sends :
      (fuel : ℕ) (name : Bytes) (sock : Fd) (fd size : ℕ) (s : S.State)
      → length name < 100
      → S.stat_size name s ≡ some size
      → size < 2 ^ 31
      → (S.open_read name s).0 ≡ some fd
      → IsReliable S (some fd) sock
      → length (L.file name s) < fuel
      → (s' : S.State) × (answer_request S fuel name sock s ≡ finished s')
        × (L.sent sock s'
            ≡ L.sent sock s ++ (file_header (length (L.file name s)) ++ L.file name s))
  unfolding answer_request
  answer_request-sends fuel name sock fd size s short stat small e R enough =
      let (s', done, sent, _) = send_sized-sends fuel name size sock fd s e R enough in
      let fits : ltb (length name) 100 ≡ true = ltb_of_lt (length name) 100 short in
      let fits' : ltb size (2 ^ 31) ≡ true = ltb_of_lt size (2 ^ 31) small in
      (
        s',
        rw (fits, stat, fits', answer_request) done,
        sent
            ∙ ap (λ n. L.sent sock s ++ (file_header n ++ L.file name s))
                (L.stat_size_file name s size stat),
      )

  -- Under the same conditions no other descriptor is written to.
  pub answer_request_elsewhere :
      (fuel : ℕ) (name : Bytes) (sock g : Fd) (fd size : ℕ) (s s' : S.State)
      → length name < 100
      → S.stat_size name s ≡ some size
      → size < 2 ^ 31
      → (S.open_read name s).0 ≡ some fd
      → IsReliable S (some fd) sock
      → length (L.file name s) < fuel
      → g ≢ sock
      → answer_request S fuel name sock s ≡ finished s'
      → L.sent g s' ≡ L.sent g s
  unfolding answer_request
  answer_request_elsewhere fuel name sock g fd size s s' short stat small e R enough other runs =
      let (s2, done, _, else') = send_sized-sends fuel name size sock fd s e R enough in
      let fits : ltb (length name) 100 ≡ true = ltb_of_lt (length name) 100 short in
      let fits' : ltb size (2 ^ 31) ≡ true = ltb_of_lt size (2 ^ 31) small in
      let runs' : answer_request S fuel name sock s ≡ finished s2 =
        rw (fits, stat, fits', answer_request) done in
      ap (L.sent g) (finished-injective _ _ (sym runs ∙ runs')) ∙ else' g other
