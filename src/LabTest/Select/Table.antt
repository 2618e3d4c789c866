-- ===== src/LabTest/Select/Table.antt =====
-- The open descriptors of `server2.cpp` while it answers a request.
use assignments_computer_net.Base.{
  ℕ, zero, suc, ◌≡◌, refl, sym, ap, ◌∙◌, true, false, none, some, ◌∷◌, arith, ◌==◌, if◌then◌else◌,
  [],
}
use mathlib.Core.Option.{some-injective}
use assignments_computer_net.Peer.Text.{Bytes}
use assignments_computer_net.Transfer.System.{Fd, System, finished}
use assignments_computer_net.Transfer.Copy.{
  copy, failed, ended, more, Read-cases, copy-failed, copy-ended, copy-more,
}
use assignments_computer_net.Transfer.Listen.{Processes, IsTable}
use assignments_computer_net.LabTest.Answer.{file_header, answer_request, answer_request-Answered}

module _ {S : System} {P : Processes S} (T : IsTable S P) where
  -- What the manual pages say of the open descriptors besides: reads and writes leave them as they are, and
  -- a new descriptor gets a number that was not open.
  pub record IsFileTable : Type 0 where
    pub socket_new : (s : S.State) (fd : ℕ) → (S.socket s).0 ≡ some fd → T.is_open fd s ≡ false
    pub reuse_keeps :
        (l : Fd) (i : ℕ) (s : S.State) → T.is_open i (P.set_reuse_addr l s).1 ≡ T.is_open i s
    pub read_keeps :
        (fd : Fd) (n i : ℕ) (s : S.State) → T.is_open i (S.read fd n s).1 ≡ T.is_open i s
    pub write_keeps :
        (fd : Fd) (text : Bytes) (i : ℕ) (s : S.State)
        → T.is_open i (S.write fd text s).1 ≡ T.is_open i s
    pub write_minus_one_keeps :
        (fd : Fd) (i : ℕ) (s : S.State) → T.is_open i (S.write_minus_one fd s).1 ≡ T.is_open i s
    pub open_read_fails :
        (name : Bytes) (i : ℕ) (s : S.State)
        → (S.open_read name s).0 ≡ none
        → T.is_open i (S.open_read name s).1 ≡ T.is_open i s
    pub open_read_new :
        (name : Bytes) (s : S.State) (fd : ℕ)
        → (S.open_read name s).0 ≡ some fd
        → T.is_open fd s ≡ false
    pub open_read_opens :
        (name : Bytes) (s : S.State) (fd i : ℕ)
        → (S.open_read name s).0 ≡ some fd
        → T.is_open i (S.open_read name s).1 ≡ (if i == fd then true else T.is_open i s)
    pub close_nothing : (i : ℕ) (s : S.State) → T.is_open i (S.close none s) ≡ T.is_open i s

  module _ (A : IsFileTable) where
    copy_keeps :
        (fuel size : ℕ) (from to : Fd) (s s' : S.State) (i : ℕ)
        → copy S fuel size from to s ≡ some s'
        → T.is_open i s' ≡ T.is_open i s
    unfolding copy
    copy_keeps zero size from to s s' i e = absurd (cc e)
    copy_keeps (suc fuel) size from to s s' i e =
        let read = (S.read from size s).1 in
        let kept = A.read_keeps from size i s in
        elim (Read-cases S (S.read from size s).0) [
          | failed r ↦
              let same = some-injective _ _ (sym e ∙ copy-failed S fuel size from to s r) in
              ap (T.is_open i) same ∙ (A.write_minus_one_keeps to i read ∙ kept)
          | ended r ↦
              let same = some-injective _ _ (sym e ∙ copy-ended S fuel size from to s r) in
              ap (T.is_open i) same ∙ (A.write_keeps to [] i read ∙ kept)
          | more c t r ↦
              let next = (S.write to (c ∷ t) read).1 in
              copy_keeps fuel size from to next s' i
                (sym (copy-more S fuel size from to s c t r) ∙ e)
              ∙ (A.write_keeps to (c ∷ t) i read ∙ kept)
        ]

    -- A file that was opened and is closed again.
    opened_and_closed :
        (name : Bytes) (fdes : Fd) (s s' : S.State) (i : ℕ)
        → (S.open_read name s).0 ≡ fdes
        → ((j : ℕ) → T.is_open j s' ≡ T.is_open j (S.open_read name s).1)
        → T.is_open i (S.close fdes s') ≡ T.is_open i s
    opened_and_closed name none s s' i e h =
        A.close_nothing i s' ∙ (h i ∙ A.open_read_fails name i s e)
    opened_and_closed name (some fd) s s' i e h = ground (
      arith,
      T.close_closes fd i s',
      h i,
      A.open_read_opens name s fd i e,
      A.open_read_new name s fd e,
    )

    -- An answer leaves the table as it was.
    pub answer_request_keeps :
        (fuel : ℕ) (name : Bytes) (sock : Fd) (s s' : S.State) (i : ℕ)
        → answer_request S fuel name sock s ≡ finished s'
        → T.is_open i s' ≡ T.is_open i s
    answer_request_keeps fuel name sock s s' i e =
        let a = answer_request-Answered S fuel name sock s s' e in
        let fdes = S.open_read name s in
        let d = (S.write sock (file_header a.size) fdes.1).1 in
        ap (T.is_open i) a.closed
        ∙ opened_and_closed name fdes.0 s a.copied i refl (λ j.
          copy_keeps fuel 1024 fdes.0 sock d a.copied j a.copies
          ∙ A.write_keeps sock (file_header a.size) j fdes.1)
