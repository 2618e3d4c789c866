-- ===== src/Transfer/Serve.antt =====
-- The server's child of assignment 5 (`Peer_Server.cpp`) and of assignment 6 (`server.cpp`): it reads
-- the name of a file and sends the file.
use assignments_computer_net.Base.{
  ℕ, ◌≡◌, ◌≢◌, ◌<◌, refl, sym, ap, subst, ◌∙◌, none, some, ◌++◌, length, arith,
}
use assignments_computer_net.Peer.Text.{Bytes, All}
use assignments_computer_net.Transfer.System.{
  Fd, System, IsStream, Outcome, finished, exited, undefined, unfinished, c_string, c_string_all,
}
use assignments_computer_net.Transfer.Copy.{copy, IsReliable, copy-IsReliable}

module _ (S : System) where
  send_file : ℕ → Bytes → Fd → S.State → Outcome S.State
  send_file fuel name sock s =
      let fdes = S.open_read name s in
      elim (copy S fuel 256 fdes.0 sock fdes.1) [
        | none ↦ unfinished
        | some s' ↦ finished (S.close fdes.0 s')
      ]

  pub serve_file : ℕ → Fd → S.State → Outcome S.State
  unfolding send_file
  serve_file fuel sock s =
      let n = S.read sock 256 s in
      elim n.0 [
        | none ↦ exited n.1
        | some buffer ↦ elim (c_string 256 buffer) [
          | none ↦ undefined
          | some name ↦ send_file fuel name sock n.1
        ]
      ]

module _ (S : System) (L : IsStream S) where
  send_file-sends :
      (fuel : ℕ) (name : Bytes) (sock : Fd) (fd : ℕ) (s : S.State)
      → (S.open_read name s).0 ≡ some fd
      → IsReliable S (some fd) sock
      → length (L.file name s) < fuel
      → (s' : S.State) × (send_file S fuel name sock s ≡ finished s')
        × (L.sent sock s' ≡ L.sent sock s ++ L.file name s)
  unfolding send_file
  send_file-sends fuel name sock fd s e R enough =
      let s1 = (S.open_read name s).1 in
      let text : L.pending (some fd) s1 ≡ L.file name s = L.open_read_file name s fd e in
      let (s', done, sent) =
        copy-IsReliable S L fuel 256 (some fd) sock s1 (omega arith) R
          (subst (λ l. length l < fuel) (sym text) enough) in
      let done' : copy S fuel 256 (S.open_read name s).0 sock s1 ≡ some s' =
        subst (λ f. copy S fuel 256 f sock s1 ≡ some s') (sym e) done in
      (
        S.close (S.open_read name s).0 s',
        rw (done', send_file) refl,
        L.close_sends_nothing (S.open_read name s).0 sock s'
            ∙ (sent
                ∙ (ap (λ l. l ++ L.pending (some fd) s1) (L.open_read_sends_nothing name sock s)
                    ∙ ap (λ l. L.sent sock s ++ l) text)),
      )

  -- The child sends exactly the file that it is asked for, behind what the socket had sent, when the
  -- name has no zero byte and at most 255 bytes, the file opens, and the reads of the file and the
  -- writes to the socket are complete; as many rounds as the file has bytes, and one more, are
  -- enough.
  pub serve_file-sends :
      (fuel : ℕ) (name : Bytes) (sock : Fd) (fd : ℕ) (s : S.State)
      → (S.read sock 256 s).0 ≡ some name
      → All (λ c. c ≢ 0) name
      → length name < 256
      → (S.open_read name (S.read sock 256 s).1).0 ≡ some fd
      → IsReliable S (some fd) sock
      → length (L.file name s) < fuel
      → (s' : S.State) × (serve_file S fuel sock s ≡ finished s')
        × (L.sent sock s' ≡ L.sent sock s ++ L.file name s)
  unfolding serve_file
  serve_file-sends fuel name sock fd s asked text short e R enough =
      let s1 = (S.read sock 256 s).1 in
      let same : L.file name s1 ≡ L.file name s = L.read_keeps_files sock 256 name s in
      let (s', done, sent) =
        send_file-sends fuel name sock fd s1 e R (subst (λ l. length l < fuel) (sym same) enough) in
      (
        s',
        rw (asked, c_string_all 256 name text short, serve_file) done,
        sent
            ∙ (ap (λ l. l ++ L.file name s1) (L.read_sends_nothing sock sock 256 s)
                ∙ ap (λ l. L.sent sock s ++ l) same),
      )
