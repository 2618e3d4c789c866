-- ===== src/Transfer/Whole.antt =====
-- A download from the server's child to the new file of the client.
use assignments_computer_net.Base.{
  ℕ, ◌≡◌, ◌≢◌, ◌<◌, ap, sym, subst, ◌∙◌, some, ◌++◌, [], length, arith,
}
use assignments_computer_net.Peer.Text.{Bytes, All}
use assignments_computer_net.Transfer.System.{System, IsStream, finished}
use assignments_computer_net.Transfer.Copy.{IsReliable}
use assignments_computer_net.Transfer.Serve.{serve_file, serve_file-sends}
use assignments_computer_net.Transfer.Fetch.{
  new_name, download_func, Connects, at_server, download_func-receives,
}

-- What the server's child needs to send the file `name` from the state `s`.
pub record Serves (S : System) (L : IsStream S) (name : Bytes) (sock : ℕ) (s : S.State)
    : Type 0 where
  pub fresh : L.sent (some sock) s ≡ []
  pub asked : (S.read (some sock) 256 s).0 ≡ some name
  pub text : All (λ c. c ≢ 0) name
  pub fd : ℕ
  pub opens : (S.open_read name (S.read (some sock) 256 s).1).0 ≡ some fd
  pub reliable : IsReliable S (some fd) (some sock)

-- What the client needs to receive it from the state `c`.
pub record Receives (C : System) (name ip : Bytes) (port sock : ℕ) (c : C.State) : Type 0 where
  pub connects : Connects C name ip port sock c
  pub fd : ℕ
  pub opens :
      (C.open_write (new_name name) (C.write (some sock) name (at_server C ip port sock c)).1).0
      ≡ some fd
  pub reliable : IsReliable C (some sock) (some fd)

-- The client's new file has exactly the bytes of the server's file, when the name has no zero and at
-- most 95 bytes, the address at most 99, both ends can open, read and write as they need, and the
-- client's connection brings what the server's child sends on a new one; as many rounds as the file
-- has bytes, and one more, are enough on both ends.
pub download_func-serve_file :
    (S C : System) (L : IsStream S) (M : IsStream C) (fuel : ℕ) (name ip : Bytes)
    (port sock sock' : ℕ) (s : S.State) (c : C.State) (V : Serves S L name sock s)
    (R : Receives C name ip port sock' c)
    → length name < 96
    → length ip < 100
    → length (L.file name s) < fuel
    → ((s' : S.State)
        → serve_file S fuel (some sock) s ≡ finished s'
        → M.pending (some sock') (at_server C ip port sock' c) ≡ L.sent (some sock) s')
    → (s' : S.State) × (c' : C.State) × (serve_file S fuel (some sock) s ≡ finished s')
      × (download_func C fuel name ip port c ≡ finished c')
      × (M.sent (some R.fd) c' ≡ L.file name s)
download_func-serve_file S C L M fuel name ip port sock sock' s c V R short shorter enough brings =
    let (s', served, sent) =
      serve_file-sends S L fuel name (some sock) V.fd s V.asked V.text (omega (arith, short))
        V.opens V.reliable enough in
    let came : M.pending (some sock') (at_server C ip port sock' c) ≡ L.file name s =
      brings s' served ∙ (sent ∙ ap (λ l. l ++ L.file name s) V.fresh) in
    let (c', done, got) =
      download_func-receives C M fuel name ip port sock' R.fd c short shorter R.connects R.opens
        R.reliable (subst (λ l. length l < fuel) (sym came) enough) in
    (s', c', served, done, got ∙ came)
