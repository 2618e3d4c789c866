-- ===== src/LabTest/Client/Whole.antt =====
-- The client's whole download, and what the server's block with the size does to it.
use mathlib.Core.List.{append_cancel_left}
use native.Mathlib.Nat.{mul-div_cancel_left}
use assignments_computer_net.Base.{
  ℕ, zero, suc, ◌+◌, ◌*◌, ◌/◌, ◌-◌, ◌^◌, ◌≡◌, ◌<◌, refl, sym, ap, ◌∙◌, inl, some, List, [], ◌∷◌,
  ◌++◌, length, arith, ◌>>=◌, >>=-some, append_assoc,
}
use assignments_computer_net.Peer.Text.{
  Bytes, Lacks, Lacks-append, colon, getline-append, getline-whole,
}
use assignments_computer_net.Peer.Decimal.{
  atoi, atoi-print_int, print_int, print_int-Lacks, atoi-line, length-print_int_le,
}
use assignments_computer_net.Transfer.System.{
  Fd, System, IsStream, finished, undefined, c_string, c_string-append,
}
use assignments_computer_net.Transfer.Copy.{IsReliable}
use assignments_computer_net.Transfer.Fetch.{Connects, at_server}
use assignments_computer_net.LabTest.Answer.{file_header, newline, zeros}
use assignments_computer_net.LabTest.Client.{
  download, receive_sized, close_both, size_text, get_file, client_main, download-receives,
  download-undefined, percent-empty,
}

module _ (S : System) where
  get_file-Connects :
      (fuel : ℕ) (name ip : Bytes) (port sock : ℕ) (s : S.State)
      → Connects S name ip port sock s
      → get_file S fuel ip port name s
        ≡ receive_sized S fuel name
            (some sock)
            (S.write (some sock) name (at_server S ip port sock s)).1
  unfolding get_file
  get_file-Connects fuel name ip port sock s C =
      rw (C.opens, C.good_address, C.connected, C.asked, C.good_address, get_file) refl

  client_main-print_int :
      (fuel : ℕ) (ip name : Bytes) (port : ℕ) (s : S.State)
      → Lacks colon ip
      → port < 2 ^ 31
      → client_main S fuel (ip ++ colon ∷ print_int port) name s ≡ get_file S fuel ip port name s
  unfolding client_main
  client_main-print_int fuel ip name port s h small = simp (
    getline-append colon [] ip (print_int port) h,
    getline-whole 0 [] (print_int port) (print_int-Lacks 0 port (inl (omega arith))),
    atoi-print_int port small,
    client_main,
  )

  -- The new file opens, and the first read brings a text that begins with a size.
  pub record Sized (name : Bytes) (sock : Fd) (s : S.State) (fd size : ℕ) : Type 0 where
    pub opens : (S.open_write name s).0 ≡ some fd
    pub first : Bytes
    pub comes : (S.read sock 1024 (S.open_write name s).1).0 ≡ some first
    pub says : (size_text S (some first) >>= atoi) ≡ some size
    pub reliable : IsReliable S sock (some fd)

  receive_sized-Sized :
      (fuel : ℕ) (name : Bytes) (sock : Fd) (s : S.State) (fd size : ℕ)
      → Sized name sock s fd size
      → receive_sized S fuel name sock s
        ≡ close_both S sock
            (some fd)
            (download S fuel sock (some fd) size 0 [] (S.read sock 1024 (S.open_write name s).1).1)
  unfolding receive_sized
  receive_sized-Sized fuel name sock s fd size Z = rw (Z.comes, Z.says, Z.opens, receive_sized) refl

zeros_pos : (k : ℕ) → 0 < k → zeros k ≡ 0 ∷ zeros (k - 1)
zeros_pos zero h = absurd (omega arith)
zeros_pos (suc k) h = ap (λ n. 0 ∷ zeros n) (omega arith)

-- The block with the size is read as the size.
pub size_text-file_header :
    (S : System) (size : ℕ)
    → size < 2 ^ 31
    → (size_text S (some (file_header size)) >>= atoi) ≡ some size
unfolding size_text
size_text-file_header S size small =
    let text = print_int size ++ newline ∷ [] in
    let k = 1023 - length (print_int size) in
    let clean : Lacks 0 text =
      Lacks-append 0 (print_int size) (newline ∷ []) (print_int-Lacks 0 size (inl (omega arith)))
        (omega arith, tt) in
    let block : file_header size ≡ text ++ 0 ∷ zeros (k - 1) =
      ap (λ l. print_int size ++ newline ∷ l)
        (zeros_pos k (omega (arith, length-print_int_le size small)))
      ∙ sym (append_assoc (print_int size) (newline ∷ []) (0 ∷ zeros (k - 1))) in
    >>=-some _ _ text (ap (c_string 1024) block ∙ c_string-append 1024 text (zeros (k - 1)) clean)
    ∙ atoi-line size small

module _ (S : System) (L : IsStream S) where
  -- The state of the client that has asked for the file, and the one behind its first read.
  abbrev pub asked_state : Bytes → Bytes → ℕ → ℕ → S.State → S.State
  asked_state name ip port sock s = (S.write (some sock) name (at_server S ip port sock s)).1

  abbrev pub behind_size : Bytes → Fd → S.State → S.State
  behind_size name sock s = (S.read sock 1024 (S.open_write name s).1).1

  receive_sized-receives :
      (fuel : ℕ) (name : Bytes) (sock : Fd) (fd size n : ℕ) (s : S.State)
      → Sized S name sock s fd size
      → 0 < size
      → length (L.pending sock (behind_size name sock s)) ≡ n
      → n * 100 < 2 ^ 31
      → n < fuel
      → (shown : List ℕ) × (s' : S.State) × (receive_sized S fuel name sock s
          ≡ finished ((n * 100 / size) ∷ shown, s'))
        × (L.sent (some fd) s' ≡ L.pending sock (behind_size name sock s))
  unfolding close_both
  receive_sized-receives fuel name sock fd size n s Z pos long small enough =
      let s1 = (S.open_write name s).1 in
      let s2 = behind_size name sock s in
      let (shown, s', done, sent) =
        download-receives S L fuel sock (some fd) size 0 n [] s2 Z.reliable pos
          (omega (arith, long)) small (omega (arith, long, enough)) in
      let start : L.sent (some fd) s2 ≡ [] =
        L.read_sends_nothing sock (some fd) 1024 s1 ∙ L.open_write_new name s fd Z.opens in
      (
        shown,
        S.close sock (S.close (some fd) s'),
        receive_sized-Sized S fuel name sock s fd size Z ∙ ap (close_both S sock (some fd)) done,
        L.close_sends_nothing sock (some fd) (S.close (some fd) s')
            ∙ (L.close_sends_nothing (some fd) (some fd) s'
                ∙ (sent ∙ ap (λ l. l ++ L.pending sock s2) start)),
      )

  -- Once the first read has brought a text that begins with the size, a number that is not 0, the new
  -- file gets exactly what the connection brings behind that read, and the last number that is
  -- printed is how many percent of the size that is. The connection is made and takes the name,
  -- the reads of it and the writes to the file are complete, and 100 times the number of bytes fits
  -- an int; as many rounds as there are bytes, and one more, are enough.
  pub get_file-receives :
      (fuel : ℕ) (name ip : Bytes) (port sock fd size n : ℕ) (s : S.State)
      → Connects S name ip port sock s
      → Sized S name (some sock) (asked_state name ip port sock s) fd size
      → 0 < size
      → length
          (L.pending (some sock) (behind_size name (some sock) (asked_state name ip port sock s)))
        ≡ n
      → n * 100 < 2 ^ 31
      → n < fuel
      → (shown : List ℕ) × (s' : S.State) × (get_file S fuel ip port name s
          ≡ finished ((n * 100 / size) ∷ shown, s'))
        × (L.sent (some fd) s'
            ≡ L.pending
                (some sock)
                (behind_size name (some sock) (asked_state name ip port sock s)))
  get_file-receives fuel name ip port sock fd size n s C Z pos long small enough =
      let (shown, s', done, sent) =
        receive_sized-receives fuel name (some sock) fd size n (asked_state name ip port sock s) Z
          pos long small enough in
      (shown, s', get_file-Connects S fuel name ip port sock s C ∙ done, sent)

  -- The download of an empty file divides by its size.
  pub get_file-empty :
      (fuel : ℕ) (name ip : Bytes) (port sock fd : ℕ) (s : S.State)
      → Connects S name ip port sock s
      → Sized S name (some sock) (asked_state name ip port sock s) fd 0
      → get_file S (suc fuel) ip port name s ≡ undefined
  unfolding close_both
  get_file-empty fuel name ip port sock fd s C Z =
      let s1 = asked_state name ip port sock s in
      let s2 = behind_size name (some sock) s1 in
      let (t, e) = Z.reliable.reads 1024 s2 in
      get_file-Connects S (suc fuel) name ip port sock s C
      ∙ (receive_sized-Sized S (suc fuel) name (some sock) s1 fd 0 Z
          ∙ ap (close_both S (some sock) (some fd)) (
              download-undefined S fuel (some sock) (some fd) 0 0 [] s2 t (length t) e
                (Z.reliable.writes t (S.read (some sock) 1024 s2).1)
                (percent-empty (0 + length t))))

  -- When the connection brings the servers' answer for a file that is not empty, and the first read
  -- the whole block with the size, then the new file is that file, and the last number that is
  -- printed is 100. The connection is made and takes the name, the new file opens, the reads of the
  -- connection and the writes to the file are complete, and 100 times the size fits an int; as many
  -- rounds as the file has bytes, and one more, are enough.
  pub get_file-answer :
      (fuel : ℕ) (name ip contents : Bytes) (port sock fd : ℕ) (s : S.State)
      → Connects S name ip port sock s
      → (S.open_write name (asked_state name ip port sock s)).0 ≡ some fd
      → (S.read (some sock) 1024 (S.open_write name (asked_state name ip port sock s)).1).0
        ≡ some (file_header (length contents))
      → IsReliable S (some sock) (some fd)
      → L.pending (some sock) (asked_state name ip port sock s)
        ≡ file_header (length contents) ++ contents
      → 0 < length contents
      → length contents * 100 < 2 ^ 31
      → length contents < fuel
      → (shown : List ℕ) × (s' : S.State) × (get_file S fuel ip port name s
          ≡ finished (100 ∷ shown, s'))
        × (L.sent (some fd) s' ≡ contents)
  get_file-answer fuel name ip contents port sock fd s C opens comes R brings pos small enough =
      let n = length contents in
      let s1 = asked_state name ip port sock s in
      let Z : Sized S name (some sock) s1 fd n = record {
        opens = opens;
        first = file_header n;
        comes = comes;
        says = size_text-file_header S n (omega (arith, small));
        reliable = R;
      } in
      let rest : L.pending (some sock) (behind_size name (some sock) s1) ≡ contents =
        append_cancel_left (file_header n) _ _ (
          sym (L.read_takes (some sock) 1024 (S.open_write name s1).1 (file_header n) comes)
          ∙ (L.open_write_reads_nothing name (some sock) s1 ∙ brings)) in
      let (shown, s', done, sent) =
        get_file-receives fuel name ip port sock fd n n s C Z pos (ap length rest) small enough in
      let all : n * 100 / n ≡ 100 = mul-div_cancel_left 100 pos in
      (shown, s', done ∙ ap (λ p. finished (p ∷ shown, s')) all, sent ∙ rest)
