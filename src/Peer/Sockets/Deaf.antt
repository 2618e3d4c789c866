-- ===== src/Peer/Sockets/Deaf.antt =====
-- Between two calls of `__recvinfo` a process has no socket on its port.
use assignments_computer_net.Base.{
  ℕ, ◌%◌, ◌^◌, ◌≡◌, refl, sym, ap, ◌∙◌, inl, inr, none, some, List, [], ◌∷◌, Option-cases,
}
use assignments_computer_net.Peer.Text.{Bytes}
use assignments_computer_net.Transfer.System.{finished, undefined, c_string, finished-injective}
use assignments_computer_net.Peer.Sockets.{Sockets, listening, recvinfo, IsUdp}
use assignments_computer_net.Peer.Sockets.Carries.{GetsPort, GetsPort-on}

module _ (N : Sockets) (U : IsUdp N) where
  -- Datagrams that come in for a port, one after the other.
  abbrev pub arrivals : ℕ → List Bytes → N.State → N.State
  arrivals port [] s = s
  arrivals port (text ∷ texts) s = arrivals port texts (N.arrive port text s)

  pub arrivals_nowhere :
      (port : ℕ) (texts : List Bytes) (s : N.State) → U.on port s ≡ none → arrivals port texts s ≡ s
  arrivals_nowhere port [] s off = refl
  arrivals_nowhere port (text ∷ texts) s off =
      let same = U.arrive_nowhere port text s off in
      arrivals_nowhere port texts (N.arrive port text s) (ap (U.on port) same ∙ off) ∙ same

  recvinfo-closed :
      (port : ℕ) (s s' : N.State) (op : Bytes)
      → recvinfo N port s ≡ finished (op, s')
      → s'
        ≡ N.close
            (listening N port s).0
            (N.recvfrom (listening N port s).0 1000 (listening N port s).1.1).1
  unfolding recvinfo
  recvinfo-closed port s s' op e =
      let l = listening N port s in
      let n = N.recvfrom l.0 1000 l.1.1 in
      elim (Option-cases n.0) [
        | inl fails ↦
            let out : recvinfo N port s ≡ undefined = rw (fails, recvinfo) refl in
            absurd (cc (out, e))
        | inr (mesg, comes) ↦ elim (Option-cases (c_string 2048 mesg)) [
          | inl long ↦
              let out : recvinfo N port s ≡ undefined = simp (comes, long, recvinfo) in
              absurd (cc (out, e))
          | inr (text, ends) ↦
              let out : recvinfo N port s ≡ finished (text, N.close l.0 n.1) =
                simp (comes, ends, recvinfo) in
              ap (λ r. r.1) (finished-injective _ _ (sym e ∙ out))
        ]
      ]

  -- `__recvinfo` closes its socket before it returns: whatever comes in for the port until it is called
  -- again is lost, and the system is as if it had not been sent. The process gets a socket, and the port.
  pub recvinfo-arrivals :
      (port : ℕ) (s s' : N.State) (op : Bytes) (texts : List Bytes)
      → GetsPort N U port s
      → recvinfo N port s ≡ finished (op, s')
      → arrivals (port % 2 ^ 16) texts s' ≡ s'
  recvinfo-arrivals port s s' op texts g e =
      let l = listening N port s in
      let n = (N.recvfrom l.0 1000 l.1.1).1 in
      let on : U.on (port % 2 ^ 16) n ≡ some g.fd =
        U.recvfrom_on l.0 (port % 2 ^ 16) 1000 l.1.1 ∙ GetsPort-on N U port s g in
      let off : U.on (port % 2 ^ 16) (N.close l.0 n) ≡ none =
        ap (λ k. U.on (port % 2 ^ 16) (N.close k n)) g.opens
        ∙ U.close_on g.fd (port % 2 ^ 16) n on in
      arrivals_nowhere (port % 2 ^ 16) texts s'
        (ap (U.on (port % 2 ^ 16)) (recvinfo-closed port s s' op e) ∙ off)
