-- ===== src/Examples/Listen.antt =====
-- A server that has accepted one connection, in a system that keeps a table of open descriptors: 5 is
-- the listening socket, and 6 a connection, of which it has one at a time.
use mathlib.Core.Option.{some-injective}
use assignments_computer_net.Base.{
  sym, ap, subst, ◌∙◌, inl, inr, Option, Bool-cases, if-false, ℕ, ◌≡◌, refl, Bool, true, false,
  none, some, [], ◌∷◌, ◌==◌, if◌then◌else◌,
}
use assignments_computer_net.Transfer.System.{Fd, System, finished}
use assignments_computer_net.LabTest.Select.{
  FdSet, fd_set, Server, start_server, round, visit, handle, accept_client, add_client, IsSelect,
  next, here,
}
use assignments_computer_net.LabTest.Select.Main.{open_listener, serves}
use assignments_computer_net.LabTest.Select.Table.{IsFileTable}
use assignments_computer_net.LabTest.Select.LeakFree.{IsLeakFree, Serves-IsLeakFree}
use assignments_computer_net.Transfer.Listen.{
  Processes, Parent, set_up, accept_round, starts, accepts, IsTable, IsTidy, Runs-IsTidy,
}

abbrev Table : Type 0
Table = ℕ → Bool

abbrev opened : ℕ → Table → Table
opened fd t i = if i == fd then true else t i

abbrev shut : Fd → Table → Table
shut none t = t
shut (some fd) t = λ i. if i == fd then false else t i

abbrev come_in : ℕ → Table → Fd × Table
come_in n t = if t n then (none, t) else (some n, opened n t)

abbrev calls : System
calls = record {
  State = Table;
  read = λ fd n t. (none, t);
  write = λ fd text t. (none, t);
  write_minus_one = λ fd t. (none, t);
  open_read = λ name t. (none, t);
  open_write = λ name t. (none, t);
  close = shut;
  stat_size = λ name t. none;
  socket = λ t. come_in 5 t;
  inet_aton = λ ip. true;
  connect = λ fd ip port t. (false, t);
  accept = λ fd t. come_in 6 t;
}

abbrev processes : Processes calls
processes = record {
  bind = λ fd port t. (true, t);
  listen = λ fd n t. (true, t);
  set_reuse_addr = λ fd t. (true, t);
  fork = λ t. (true, t);
}

come_in_new : (n : ℕ) (t : Table) (fd : ℕ) → (come_in n t).0 ≡ some fd → t fd ≡ false
come_in_new n t fd e = elim (Bool-cases (t n)) [
  | inl taken ↦ let out : (come_in n t).0 ≡ none = rw taken refl in absurd (cc (out, e))
  | inr free ↦
      let out : (come_in n t).0 ≡ some n = rw free refl in
      subst (λ k. t k ≡ false) (some-injective _ _ (sym out ∙ e)) free
]

come_in_opens :
    (n : ℕ) (t : Table) (fd i : ℕ)
    → (come_in n t).0 ≡ some fd
    → (come_in n t).1 i ≡ (if i == fd then true else t i)
come_in_opens n t fd i e = elim (Bool-cases (t n)) [
  | inl taken ↦ let out : (come_in n t).0 ≡ none = rw taken refl in absurd (cc (out, e))
  | inr free ↦
      let out : (come_in n t).0 ≡ some n = rw free refl in
      let same : n ≡ fd = some-injective _ _ (sym out ∙ e) in
      ap (λ (r : Fd × Table). r.1 i) (if-false _ (none, t) (some n, opened n t) free)
      ∙ ap (λ k. opened k t i) same
]

abbrev table : IsTable calls processes
table = record {
  is_open = λ i t. t i;
  socket_opens = λ t fd i e. come_in_opens 5 t fd i e;
  accept_new = λ l t fd e. come_in_new 6 t fd e;
  accept_opens = λ l t fd i e. come_in_opens 6 t fd i e;
  close_closes = λ fd i t. refl;
  bind_keeps = λ l port i t. refl;
  listen_keeps = λ l n i t. refl;
  fork_keeps = λ i t. refl;
}

abbrev empty : Table
empty i = false

abbrev waiting : Parent calls
waiting = record { sockfd = some 5; children = []; system = opened 5 empty }

abbrev served_one : Parent calls
served_one = record {
  sockfd = some 5;
  children = (6, opened 6 (opened 5 empty)) ∷ [];
  system = shut (some 6) (opened 6 (opened 5 empty));
}

is_set_up : set_up calls processes 2500 empty ≡ finished waiting
unfolding set_up
is_set_up = refl

accepts_one : accept_round calls processes waiting ≡ finished served_one
unfolding accept_round
accepts_one = refl

Runs-IsTidy_example : IsTidy calls processes table empty served_one
Runs-IsTidy_example =
    Runs-IsTidy calls processes table empty served_one (accepts (starts 2500 is_set_up) accepts_one)

abbrev file_table : IsFileTable table
file_table = record {
  socket_new = λ t fd e. come_in_new 5 t fd e;
  reuse_keeps = λ l i t. refl;
  read_keeps = λ fd n i t. refl;
  write_keeps = λ fd text i t. refl;
  write_minus_one_keeps = λ fd i t. refl;
  open_read_fails = λ name i t e. refl;
  open_read_new = λ name t fd e. absurd (cc e);
  open_read_opens = λ name t fd i e. absurd (cc e);
  close_nothing = λ i t. refl;
}

-- `server2.cpp` with the same calls.
abbrev all_ready : ℕ → FdSet → Table → Option FdSet × Table
all_ready n members t = (some members, t)

all_ready-IsSelect : IsSelect calls all_ready
all_ready-IsSelect = record {
  among = λ n members ready t i e r. subst (λ f. f i ≡ true) (sym (some-injective _ _ e)) r;
}

abbrev listening : Server calls
listening = record {
  master = fd_set 5 (λ i. false);
  read_fds = λ i. false;
  fdmax = 5;
  listener = 5;
  newsockfd = none;
  system = opened 5 empty;
}

abbrev connected : Server calls
connected = record {
  master = fd_set 6 (fd_set 5 (λ i. false));
  read_fds = fd_set 5 (λ i. false);
  fdmax = 6;
  listener = 5;
  newsockfd = some 6;
  system = opened 6 (opened 5 empty);
}

listener_ready : open_listener calls processes empty ≡ finished (some 5, opened 5 empty)
unfolding open_listener
listener_ready = refl

starts_listening : start_server calls 5 (opened 5 empty) ≡ finished listening
unfolding start_server
starts_listening = refl

connects : round calls all_ready 4 listening ≡ finished connected
unfolding round visit handle accept_client add_client
connects = refl

Serves-IsLeakFree_example : IsLeakFree table file_table empty connected
Serves-IsLeakFree_example =
    Serves-IsLeakFree table file_table empty all_ready connected all_ready-IsSelect
      (λ n i members t. refl) (serves listener_ready starts_listening (next 4 here connects))
