-- ===== src/Examples/Transfer.antt =====
-- A file of three bytes on its way.
use assignments_computer_net.Base.{
  take, length, ℕ, ◌≡◌, ◌<◌, refl, sym, ap, ◌∙◌, none, some, [], ◌∷◌, arith,
}
use assignments_computer_net.Peer.Text.{Bytes}
use assignments_computer_net.Peer.Search.{codes}
use assignments_computer_net.Transfer.System.{System, finished-injective, finished}
use assignments_computer_net.Transfer.Copy.{copy, copy-IsReliable}
use assignments_computer_net.Transfer.Copy.Short.{Succeeds, Shortens, now, copy_short}
use assignments_computer_net.Transfer.Serve.{serve_file, serve_file-sends}
use assignments_computer_net.Transfer.Fetch.{
  download_func, Connects, localhost, download_func-receives,
}
use assignments_computer_net.Transfer.Whole.{Serves, Receives, download_func-serve_file}
use assignments_computer_net.FileIndex.{list_of_files, list_of_files_undefined}
use assignments_computer_net.Examples.Machine.{
  chunk, machine_of, machine_of-IsStream, Machine, machine, machine-IsStream, machine-IsReliable,
  set,
}

abbrev name : Bytes
name = codes "a.txt"

abbrev text : Bytes
text = codes "xyz"

abbrev nothing : ℕ → Bytes
nothing i = []

-- The server's child has been asked for the file on descriptor 4.
abbrev server : Machine
server = record { inbox = set nothing 4 name; outbox = nothing; disk = text }

-- The file comes in on descriptor 5.
abbrev client : Machine
client = record { inbox = set nothing 5 text; outbox = nothing; disk = [] }

copied :
    copy machine 3 256 (some 5) (some 8) client
    ≡ some (record client {
      inbox = set (set client.inbox 5 []) 5 [];
      outbox = set (set nothing 8 text) 8 text;
    })
unfolding copy
copied = refl

copy-IsReliable_example :
    (m : Machine) × (copy machine 4 256 (some 5) (some 8) client ≡ some m) × (m.outbox 8 ≡ text)
copy-IsReliable_example =
    copy-IsReliable machine machine-IsStream 4 256 (some 5) (some 8) client (omega arith)
      (machine-IsReliable 5 8) (omega arith)

-- Writes take two bytes at most.
abbrev narrow : System
narrow = machine_of (some 2)

succeeds : Succeeds narrow (machine_of-IsStream (some 2)) (some 5) (some 8)
succeeds = record {
  reads = λ size m. (take size (m.inbox 5), refl);
  writes = λ t m. (length (chunk (some 2) t), refl);
}

shortens : Shortens narrow (machine_of-IsStream (some 2)) 256 (some 5) (some 8) client
shortens = now 120 2 (codes "yz") refl refl (omega arith)

copy_short_example :
    (m : Machine) × (copy narrow 4 256 (some 5) (some 8) client ≡ some m)
    × (length (m.outbox 8) < 3)
copy_short_example =
    copy_short narrow (machine_of-IsStream (some 2)) 4 256 (some 5) (some 8) client succeeds
      shortens (omega arith)

serve_file-sends_example :
    (m : Machine) × (serve_file machine 4 (some 4) server ≡ finished m) × (m.outbox 4 ≡ text)
serve_file-sends_example =
    serve_file-sends machine machine-IsStream 4 name (some 4) 7 server refl (ground arith)
      (omega arith) refl (machine-IsReliable 7 4) (omega arith)

abbrev connects : Connects machine name localhost 80 5 client
connects = record { opens = refl; good_address = refl; connected = refl; written = 5; asked = refl }

download_func-receives_example :
    (m : Machine) × (download_func machine 4 name localhost 80 client ≡ finished m)
    × (m.outbox 8 ≡ text)
download_func-receives_example =
    download_func-receives machine machine-IsStream 4 name localhost 80 5 8 client (omega arith)
      (omega arith) connects refl (machine-IsReliable 5 8) (omega arith)

abbrev long_name : Bytes
long_name =
    codes
      "0123456789012345678901234567890123456789012345678901234567890123456789012345678901234567890123456789"

serves : Serves machine machine-IsStream name 4 server
serves = record {
  fresh = refl;
  asked = refl;
  text = ground arith;
  fd = 7;
  opens = refl;
  reliable = machine-IsReliable 7 4;
}

abbrev receives : Receives machine name localhost 80 5 client
receives = record { connects = connects; fd = 8; opens = refl; reliable = machine-IsReliable 5 8 }

served : (m : Machine) → serve_file machine 4 (some 4) server ≡ finished m → text ≡ m.outbox 4
served m e =
    let (m', done, sent) =
      serve_file-sends machine machine-IsStream 4 name (some 4) 7 server refl (ground arith)
        (omega arith) refl (machine-IsReliable 7 4) (omega arith) in
    sym sent ∙ ap (λ k. k.outbox 4) (finished-injective _ _ (sym done ∙ e))

download_func-serve_file_example :
    (m m' : Machine) × (serve_file machine 4 (some 4) server ≡ finished m)
    × (download_func machine 4 name localhost 80 client ≡ finished m')
    × (m'.outbox 8 ≡ text)
download_func-serve_file_example =
    download_func-serve_file machine machine machine-IsStream machine-IsStream 4 name localhost 80 4
      5 server client serves receives (omega arith) (omega arith) (omega arith) served

list_of_files_undefined_example :
    list_of_files
      (record { d_name = name; d_type = 8 } ∷ record { d_name = codes "Makefile"; d_type = 8 } ∷ [])
      []
    ≡ none
list_of_files_undefined_example =
    list_of_files_undefined (record { d_name = name; d_type = 8 } ∷ []) []
      (record { d_name = codes "Makefile"; d_type = 8 }) [] (ground arith) (omega arith)
