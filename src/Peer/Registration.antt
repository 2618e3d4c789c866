-- ===== src/Peer/Registration.antt =====
-- A peer's first message, and how the bootstrap program reads it.
use assignments_computer_net.Base.{
  inl, arith, ℕ, zero, suc, ◌^◌, ◌<◌, ◌≡◌, ◌≢◌, sym, refl, ap, Option, some, List, [], ◌∷◌, ◌++◌,
  length, ◌>>=◌,
}
use assignments_computer_net.Peer.Text.{
  Bytes, space, colon, All, Lacks, Lacks-append, Stream, open_stream, getline, getline-append,
}
use assignments_computer_net.Peer.Decimal.{
  print_int, scan_count, scan_count-print_int, print_int-Lacks,
}
use assignments_computer_net.Peer.Node.{Node, set_ip_port, set_ip_port_lem, oat_hash}

-- `server.cpp`: the address, the port, the number of files and their names, each with a space
-- behind it.
unfoldable pub tokens : List Bytes → Bytes
tokens [] = []
tokens (t ∷ ts) = t ++ space ∷ tokens ts

unfoldable pub registration : Bytes → Bytes → List Bytes → Bytes
unfolding tokens
registration ip port files =
    ip ++ space ∷ (port ++ space ∷ (print_int (length files) ++ space ∷ tokens files))

-- `__init.cpp`: `count` rounds, each with a string of its own.
read_files : ℕ → Stream → List Bytes
read_files zero s = []
read_files (suc count) s = let r = getline space [] s in r.0 ∷ read_files count r.1

-- One round of the first loop. A count that `sscanf` does not read is undefined.
pub register : Node → Bytes → Option Node
unfolding read_files
register n msg = do
  let first = getline space [] (open_stream msg)
  let second = getline space [] first.1
  let third = getline space [] second.1
  count ← scan_count third.0
  let named = set_ip_port n (first.0 ++ colon ∷ second.0)
  some (record named { my_file = named.my_file ++ read_files count third.1 })

tokens-Lacks :
    (d : ℕ) (files : List Bytes) → d ≢ space → All (Lacks d) files → Lacks d (tokens files)
unfolding tokens
tokens-Lacks d [] other h = tt
tokens-Lacks d (f ∷ files) other h =
    Lacks-append d f (space ∷ tokens files) h.0 (λ e. other (sym e), tokens-Lacks d files other h.1)

-- A byte that no part has, nor a digit nor the space, is not in the message.
pub registration-Lacks :
    (d : ℕ) (ip port : Bytes) (files : List Bytes)
    → d < b' '
    → Lacks d ip
    → Lacks d port
    → All (Lacks d) files
    → Lacks d (registration ip port files)
unfolding registration
registration-Lacks d ip port files low i p fs =
    let apart : d ≢ space = omega (arith, low) in
    let count = print_int (length files) in
    Lacks-append d ip (space ∷ (port ++ space ∷ (count ++ space ∷ tokens files))) i (
      λ e. apart (sym e),
      Lacks-append d port (space ∷ (count ++ space ∷ tokens files)) p (
        λ e. apart (sym e),
        Lacks-append d count (space ∷ tokens files)
            (print_int-Lacks d (length files) (inl (omega (arith, low))))
            (λ e. apart (sym e), tokens-Lacks d files apart fs),
      ),
    )

read_files-tokens :
    (files : List Bytes)
    → All (Lacks space) files
    → read_files (length files) (open_stream (tokens files)) ≡ files
unfolding read_files tokens
read_files-tokens [] h = refl
read_files-tokens (f ∷ files) h =
    rw (getline-append space [] f (tokens files) h.0)
      (ap (λ l. f ∷ l) (read_files-tokens files h.1))

-- The bootstrap program reads the message of a peer back: the address, the port and the files, when
-- no name has a space, the address and the port have no colon, and there are fewer than 2 ^ 31
-- files. The node's identifier is the hash of its address.
pub register-registration :
    (n : Node) (ip port : Bytes) (files : List Bytes)
    → Lacks space ip
    → Lacks colon ip
    → Lacks space port
    → Lacks colon port
    → All (Lacks space) files
    → length files < 2 ^ 31
    → register n (registration ip port files)
      ≡ some (record n {
        ip = ip;
        port = port;
        ip_port = ip ++ colon ∷ port;
        node_id = oat_hash (ip ++ colon ∷ port);
        scr = [];
        pdr = [];
        my_file = n.my_file ++ files;
      })
unfolding register registration
register-registration n ip port files is ic ps pc fs few =
    let third = print_int (length files) ++ space ∷ tokens files in
    simp (
      getline-append space [] ip (port ++ space ∷ third) is,
      getline-append space [] port third ps,
      getline-append space [] (print_int (length files)) (tokens files)
          (print_int-Lacks space (length files) (inl (omega arith))),
      scan_count-print_int (length files) few,
      set_ip_port_lem n ip port ic pc,
      read_files-tokens files fs,
    )
