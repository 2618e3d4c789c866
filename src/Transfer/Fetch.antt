-- ===== src/Transfer/Fetch.antt =====
-- The downloading side: `file_transfer` of assignment 5 (`Peer_Client.cpp`) and `download_func` of
-- assignment 6 (`server.cpp`).
pub mod Long
use assignments_computer_net.Base.{
  ℕ, ◌%◌, ◌^◌, ◌≡◌, ◌<◌, ◌≤◌, refl, sym, ap, subst, ◌∙◌, true, false, none, some, ◌++◌, length,
  arith, ltb, ltb_of_lt, ltb_of_le, if◌then◌else◌,
}
use assignments_computer_net.Peer.Text.{Bytes}
use assignments_computer_net.Peer.Search.{codes}
use assignments_computer_net.Transfer.System.{
  Fd, System, IsStream, Outcome, finished, exited, undefined, unfinished,
}
use assignments_computer_net.Transfer.Copy.{copy, IsReliable, copy-IsReliable}

-- The new file's name. Its buffer has 100 bytes, the last one for the zero.
abbrev pub new_name : Bytes → Bytes
new_name name = codes "new " ++ name

-- The server's address.
abbrev pub localhost : Bytes
localhost = codes "127.0.0.1"

module _ (S : System) where
  -- Once connected: the name goes out, and what comes back goes into a new file.
  receive_file : ℕ → Bytes → Fd → S.State → Outcome S.State
  receive_file fuel name sock s =
      let fdes = S.open_write (new_name name) s in
      elim (copy S fuel 256 sock fdes.0 fdes.1) [
        | none ↦ unfinished
        | some s' ↦ finished (S.close sock (S.close fdes.0 s'))
      ]

  pub ask : ℕ → Bytes → Fd → S.State → Outcome S.State
  unfolding receive_file
  ask fuel name sock s =
      let n = S.write sock name s in
      elim n.0 [
        | none ↦ exited n.1
        | some k ↦
            if ltb (length (new_name name)) 100 then receive_file fuel name sock n.1 else undefined
      ]

  -- `inet_aton` and `connect`; a port is a uint16_t.
  reach : ℕ → Bytes → Bytes → ℕ → Fd → S.State → Outcome S.State
  unfolding ask
  reach fuel name ip port sock s =
      let c = S.connect sock ip (port % 2 ^ 16) s in
      if S.inet_aton ip then (if c.0 then ask fuel name sock c.1 else exited c.1) else exited s

  -- The buffers for the name and the address have 2048 and 100 bytes.
  pub download_func : ℕ → Bytes → Bytes → ℕ → S.State → Outcome S.State
  unfolding reach
  download_func fuel file ip port s =
      let sockfd = S.socket s in
      if ltb (length file) 2048
      then elim sockfd.0 [
        | none ↦ exited sockfd.1
        | some sock ↦
            if ltb (length ip) 100 then reach fuel file ip port (some sock) sockfd.1 else undefined
      ]
      else undefined

  -- The buffer that `scanf` writes the name to has 100 bytes.
  pub file_transfer : ℕ → Bytes → ℕ → S.State → Outcome S.State
  unfolding reach
  file_transfer fuel name port s =
      let sockfd = S.socket s in
      if ltb (length name) 100
      then elim sockfd.0 [
        | none ↦ exited sockfd.1
        | some sock ↦ reach fuel name localhost port (some sock) sockfd.1
      ]
      else undefined

module _ (S : System) where
  -- The state after `connect`.
  abbrev pub at_server : Bytes → ℕ → ℕ → S.State → S.State
  at_server ip port sock s = (S.connect (some sock) ip (port % 2 ^ 16) (S.socket s).1).1

  -- The connection is made, and the name goes out over it.
  pub record Connects (name ip : Bytes) (port sock : ℕ) (s : S.State) : Type 0 where
    pub opens : (S.socket s).0 ≡ some sock
    pub good_address : S.inet_aton ip ≡ true
    pub connected : (S.connect (some sock) ip (port % 2 ^ 16) (S.socket s).1).0 ≡ true
    pub written : ℕ
    pub asked : (S.write (some sock) name (at_server ip port sock s)).0 ≡ some written

  ask-fits :
      (fuel : ℕ) (name : Bytes) (sock : Fd) (s : S.State) (k : ℕ)
      → (S.write sock name s).0 ≡ some k
      → length name < 96
      → ask S fuel name sock s ≡ receive_file S fuel name sock (S.write sock name s).1
  unfolding ask
  ask-fits fuel name sock s k w short =
      let fits : ltb (length (new_name name)) 100 ≡ true =
        ltb_of_lt (length (new_name name)) 100 (omega (arith, short)) in
      rw (w, ask, fits) refl

  pub ask-long :
      (fuel : ℕ) (name : Bytes) (sock : Fd) (s : S.State) (k : ℕ)
      → (S.write sock name s).0 ≡ some k
      → 96 ≤ length name
      → ask S fuel name sock s ≡ undefined
  unfolding ask
  ask-long fuel name sock s k w long =
      let over : ltb (length (new_name name)) 100 ≡ false =
        ltb_of_le (length (new_name name)) 100 (omega (arith, long)) in
      rw (w, ask, over) refl

  download_func-Connects :
      (fuel : ℕ) (file ip : Bytes) (port sock : ℕ) (s : S.State)
      → length file < 2048
      → length ip < 100
      → Connects file ip port sock s
      → download_func S fuel file ip port s ≡ ask S fuel file (some sock) (at_server ip port sock s)
  unfolding download_func reach
  download_func-Connects fuel file ip port sock s short shorter C =
      let fits : ltb (length file) 2048 ≡ true = ltb_of_lt (length file) 2048 short in
      let fits' : ltb (length ip) 100 ≡ true = ltb_of_lt (length ip) 100 shorter in
      rw (fits, C.opens, fits', C.good_address, C.connected, download_func, reach) refl

  file_transfer-Connects :
      (fuel : ℕ) (name : Bytes) (port sock : ℕ) (s : S.State)
      → length name < 100
      → Connects name localhost port sock s
      → file_transfer S fuel name port s
        ≡ ask S fuel name (some sock) (at_server localhost port sock s)
  unfolding file_transfer reach
  file_transfer-Connects fuel name port sock s short C =
      let fits : ltb (length name) 100 ≡ true = ltb_of_lt (length name) 100 short in
      rw (fits, C.opens, C.good_address, C.connected, file_transfer, reach) refl

module _ (S : System) (L : IsStream S) where
  receive_file-receives :
      (fuel : ℕ) (name : Bytes) (sock : Fd) (fd : ℕ) (s : S.State)
      → (S.open_write (new_name name) s).0 ≡ some fd
      → IsReliable S sock (some fd)
      → length (L.pending sock s) < fuel
      → (s' : S.State) × (receive_file S fuel name sock s ≡ finished s')
        × (L.sent (some fd) s' ≡ L.pending sock s)
  unfolding receive_file
  receive_file-receives fuel name sock fd s e R enough =
      let s1 = (S.open_write (new_name name) s).1 in
      let same : L.pending sock s1 ≡ L.pending sock s =
        L.open_write_reads_nothing (new_name name) sock s in
      let (s', done, sent) =
        copy-IsReliable S L fuel 256 sock (some fd) s1 (omega arith) R
          (subst (λ l. length l < fuel) (sym same) enough) in
      let done' : copy S fuel 256 sock (S.open_write (new_name name) s).0 s1 ≡ some s' =
        subst (λ f. copy S fuel 256 sock f s1 ≡ some s') (sym e) done in
      let s2 = S.close (S.open_write (new_name name) s).0 s' in
      (
        S.close sock s2,
        rw (done', receive_file) refl,
        L.close_sends_nothing sock (some fd) s2
            ∙ (L.close_sends_nothing (S.open_write (new_name name) s).0 (some fd) s'
                ∙ (sent
                    ∙ (ap (λ l. l ++ L.pending sock s1) (L.open_write_new (new_name name) s fd e)
                        ∙ same))),
      )

  ask-receives :
      (fuel : ℕ) (name : Bytes) (sock : Fd) (fd k : ℕ) (s : S.State)
      → (S.write sock name s).0 ≡ some k
      → length name < 96
      → (S.open_write (new_name name) (S.write sock name s).1).0 ≡ some fd
      → IsReliable S sock (some fd)
      → length (L.pending sock s) < fuel
      → (s' : S.State) × (ask S fuel name sock s ≡ finished s')
        × (L.sent (some fd) s' ≡ L.pending sock s)
  unfolding ask
  ask-receives fuel name sock fd k s w short e R enough =
      let same : L.pending sock (S.write sock name s).1 ≡ L.pending sock s =
        L.write_reads_nothing sock sock name s in
      let (s', done, sent) =
        receive_file-receives fuel name sock fd (S.write sock name s).1 e R
          (subst (λ l. length l < fuel) (sym same) enough) in
      (s', ask-fits S fuel name sock s k w short ∙ done, sent ∙ same)

  -- The download puts what the connection brings, exactly, in a new file, when the name has at most
  -- 95 bytes and the address at most 99, the connection is made and takes the name, the file opens,
  -- and the reads of the connection and the writes to the file are complete; as many rounds as
  -- there are bytes, and one more, are enough.
  pub download_func-receives :
      (fuel : ℕ) (file ip : Bytes) (port sock fd : ℕ) (s : S.State)
      → length file < 96
      → length ip < 100
      → Connects S file ip port sock s
      → (S.open_write (new_name file) (S.write (some sock) file (at_server S ip port sock s)).1).0
        ≡ some fd
      → IsReliable S (some sock) (some fd)
      → length (L.pending (some sock) (at_server S ip port sock s)) < fuel
      → (s' : S.State) × (download_func S fuel file ip port s ≡ finished s')
        × (L.sent (some fd) s' ≡ L.pending (some sock) (at_server S ip port sock s))
  download_func-receives fuel file ip port sock fd s short shorter C e R enough =
      let (s', done, sent) =
        ask-receives fuel file (some sock) fd C.written (at_server S ip port sock s) C.asked short e
          R enough in
      (
        s',
        download_func-Connects S fuel file ip port sock s (omega (arith, short)) shorter C ∙ done,
        sent,
      )

  -- The same for the client of assignment 5, which connects to the local host.
  pub file_transfer-receives :
      (fuel : ℕ) (name : Bytes) (port sock fd : ℕ) (s : S.State)
      → length name < 96
      → Connects S name localhost port sock s
      → (S.open_write
          (new_name name)
          (S.write (some sock) name (at_server S localhost port sock s)).1).0
        ≡ some fd
      → IsReliable S (some sock) (some fd)
      → length (L.pending (some sock) (at_server S localhost port sock s)) < fuel
      → (s' : S.State) × (file_transfer S fuel name port s ≡ finished s')
        × (L.sent (some fd) s' ≡ L.pending (some sock) (at_server S localhost port sock s))
  file_transfer-receives fuel name port sock fd s short C e R enough =
      let (s', done, sent) =
        ask-receives fuel name (some sock) fd C.written (at_server S localhost port sock s) C.asked
          short e R enough in
      (s', file_transfer-Connects S fuel name port sock s (omega (arith, short)) C ∙ done, sent)
