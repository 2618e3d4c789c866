-- ===== src/Peer/Transport.antt =====
-- A message on its way from `__sendreq` to `__recvinfo`, which both programs have.
use assignments_computer_net.Base.{
  ℕ, zero, suc, ◌≡◌, ◌<◌, ◌≤◌, refl, ap, ◌∙◌, Option, some, [], ◌∷◌, length, take, arith, ◌>>=◌,
  >>=-some, length-take_le,
}
use assignments_computer_net.Peer.Text.{Bytes, Lacks}
use assignments_computer_net.Transfer.System.{c_string, c_string_all}

-- Both buffers have 2048 bytes. `__sendreq` copies the text to its buffer and sends what is in front
-- of the first zero; a text that does not fit is `none`. `recvfrom` fills at most 1000 bytes, and the
-- program puts a zero behind them.
unfoldable pub transport : Bytes → Option Bytes
transport msg = do line ← c_string 2048 msg; c_string 2048 (take 1000 line)

take-Lacks : (d n : ℕ) (t : Bytes) → Lacks d t → Lacks d (take n t)
take-Lacks d zero t h = tt
take-Lacks d (suc n) [] h = tt
take-Lacks d (suc n) (c ∷ t) h = (h.0, take-Lacks d n t h.1)

take_short : (n : ℕ) (t : Bytes) → length t ≤ n → take n t ≡ t
take_short zero [] h = refl
take_short zero (c ∷ t) h = absurd (omega arith)
take_short (suc n) [] h = refl
take_short (suc n) (c ∷ t) h = ap (λ l. c ∷ l) (take_short n t (omega arith))

-- Of a text without a zero that fits the sender's buffer, the first 1000 bytes arrive; the rest is
-- lost.
pub transport-take :
    (msg : Bytes) → Lacks 0 msg → length msg < 2048 → transport msg ≡ some (take 1000 msg)
unfolding transport
transport-take msg h l =
    >>=-some _ _ msg (c_string_all 2048 msg h l)
    ∙ c_string_all 2048 (take 1000 msg) (take-Lacks 0 1000 msg h)
        (omega (arith, length-take_le 1000 msg))

pub transport_whole : (msg : Bytes) → Lacks 0 msg → length msg ≤ 1000 → transport msg ≡ some msg
transport_whole msg h l = transport-take msg h (omega arith) ∙ ap some (take_short 1000 msg l)
