-- ===== src/LabTest/Select/Wrong.antt =====
-- Where the answer to a request goes.
use mathlib.Core.Option.{some-injective}
use assignments_computer_net.Base.{
  ℕ, ◌^◌, ◌≡◌, ◌≢◌, ◌<◌, sym, ap, subst, ◌∙◌, some, ◌∷◌, ◌++◌, length, arith, false, ◌==◌, if-false,
}
use assignments_computer_net.Peer.Text.{Bytes, All}
use assignments_computer_net.Transfer.System.{System, IsStream, finished, c_string, c_string_all}
use assignments_computer_net.Transfer.Copy.{IsReliable}
use assignments_computer_net.LabTest.Answer.{
  file_header, answer_request, answer_request-sends, answer_request_elsewhere,
}
use assignments_computer_net.LabTest.Select.{Server, answered, answer_client, serve_client, handle}

module _ (S : System) (L : IsStream S) where
  -- The request for `name`, which is not empty, on the connection `i`, and what it needs to be answered.
  pub record Requests (v : Server S) (i j : ℕ) (name : Bytes) : Type 0 where
    pub first : ℕ
    pub others : Bytes
    pub spelt : name ≡ first ∷ others
    pub text : All (λ c. c ≢ 0) name
    pub short : length name < 100
    pub from_client : i ≢ v.listener
    pub latest : v.newsockfd ≡ some j
    pub comes : (S.read (some i) 1024 v.system).0 ≡ some name
    pub size : ℕ
    pub stat : S.stat_size name (S.read (some i) 1024 v.system).1 ≡ some size
    pub small : size < 2 ^ 31
    pub fd : ℕ
    pub opens : (S.open_read name (S.read (some i) 1024 v.system).1).0 ≡ some fd
    pub reliable : IsReliable S (some fd) (some j)

  handle-Requests :
      (fuel : ℕ) (v : Server S) (i j : ℕ) (name : Bytes)
      → Requests v i j name
      → handle S fuel v i
        ≡ answered S v (answer_request S fuel name (some j) (S.read (some i) 1024 v.system).1)
  unfolding handle serve_client answer_client
  handle-Requests fuel v i j name R =
      let client : (i == v.listener) ≡ false = ground (arith, R.from_client) in
      let came : (S.read (some i) 1024 v.system).0 ≡ some (R.first ∷ R.others) =
        R.comes ∙ ap some R.spelt in
      let asked : c_string 1024 (R.first ∷ R.others) ≡ some name =
        ap (c_string 1024) (sym R.spelt) ∙ c_string_all 1024 name R.text (omega (arith, R.short)) in
      if-false _ _ _ client ∙ simp (came, asked, R.latest, serve_client, answer_client)

  -- The answer to a request on the connection `i` is written to the connection that was accepted last,
  -- `j`: when that is another one, the client that asked gets nothing, and the other one gets the size
  -- and the file. The conditions are those of an answer: a name of 1 to 99 bytes without a zero, a file
  -- smaller than 2 ^ 31 bytes that opens, complete reads and writes, and enough rounds.
  pub handle-elsewhere :
      (fuel : ℕ) (v : Server S) (i j : ℕ) (name : Bytes)
      → Requests v i j name
      → length (L.file name v.system) < fuel
      → i ≢ j
      → (w : Server S) × (handle S fuel v i ≡ finished w)
        × (L.sent (some i) w.system ≡ L.sent (some i) v.system)
        × (L.sent (some j) w.system
            ≡ L.sent (some j) v.system
              ++ (file_header (length (L.file name v.system)) ++ L.file name v.system))
  unfolding answered
  handle-elsewhere fuel v i j name R enough other =
      let s1 = (S.read (some i) 1024 v.system).1 in
      let same : L.file name s1 ≡ L.file name v.system =
        L.read_keeps_files (some i) 1024 name v.system in
      let enough' : length (L.file name s1) < fuel =
        subst (λ l. length l < fuel) (sym same) enough in
      let (s', done, sent) =
        answer_request-sends S L fuel name (some j) R.fd R.size s1 R.short R.stat R.small R.opens
          R.reliable enough' in
      let nothing =
        answer_request_elsewhere S L fuel name (some j) (some i) R.fd R.size s1 s' R.short R.stat
          R.small R.opens R.reliable enough' (λ e. other (some-injective _ _ e)) done in
      (
        record v { system = s' },
        handle-Requests fuel v i j name R ∙ ap (answered S v) done,
        nothing ∙ L.read_sends_nothing (some i) (some i) 1024 v.system,
        sent
            ∙ (ap (λ l. l ++ (file_header (length (L.file name s1)) ++ L.file name s1))
                  (L.read_sends_nothing (some i) (some j) 1024 v.system)
                ∙ ap (λ l. L.sent (some j) v.system ++ (file_header (length l) ++ l)) same),
      )
