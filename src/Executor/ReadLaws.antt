-- ===== src/Executor/ReadLaws.antt =====
-- `host::messages_read` of src/executor/mod.rs: what a polling program gets.
use weverywhere.Prelude.{
  ℕ, ◌<◌, ◌≤◌, min, ◌≡◌, ◌∙◌, sym, ap, ◌⊎◌, keep, ltb, take, length, some, arith, subst, refl, inl,
  inr, leb, Bytes, Bool-cases, take_of_length-le,
}
use weverywhere.Foreign.Cbor.{Cbor, ℤ, pos}
use weverywhere.MessageStore.{StoredMessage, MessageStore, read_after}
use weverywhere.Executor.Memory.{max0, read_guest_bytes, write_guest_bytes-reads_back}
use weverywhere.Executor.Store.{Guest}
use weverywhere.Executor.Host.{write}
use weverywhere.Executor.HostMessages.{encode_list, encode_messages_cbor, host_messages_read}
use weverywhere.Executor.HostLaws.{encode_messages_cbor-LargestFit}
use weverywhere.Executor.HostTtyLaws.{write-inversion}

take-min : (xs : Bytes) (c : ℕ) → take (min (length xs) c) xs ≡ take c xs
take-min xs c = elim (Bool-cases (leb (length xs) c)) [
  | inl short ↦
      let e : min (length xs) c ≡ length xs = ground arith in
      rw e (
        take_of_length-le (length xs) xs (omega arith)
        ∙ sym (take_of_length-le c xs (ground arith)))
  | inr long ↦ let e : min (length xs) c ≡ c = ground arith in rw e refl
]

host_messages_read-write :
    (cbor : Cbor) (g : Guest) (ptr cap : ℤ) (a : ℕ) (s : MessageStore)
    → g.store.messages ≡ some s
    → host_messages_read cbor g (pos a) ptr cap
      ≡ write g ptr
          (pos (max0 cap))
          (encode_messages_cbor cbor (keep (λ m. ltb a m.seq) s.msgs) (max0 cap))
unfolding host_messages_read read_after
host_messages_read-write cbor g ptr cap a s has = rw has refl

-- A program that reads the messages after a sequence number gets, in its buffer, the longest run of the
-- oldest of them whose encoding fits into it: of all stored messages with a higher number, the first
-- n, in the order of the store, as one encoded list; and with one more, or any more, the list would
-- be too long. Where not even one message fits, it gets the encoding of the empty list, cut off where
-- the buffer ends. It is told how many bytes were written. The call does not trap, and the store is
-- not poisoned.
pub host_messages_read-LargestFit :
    (cbor : Cbor) (g g' : Guest) (ptr cap r : ℤ) (a : ℕ) (s : MessageStore)
    → g.store.messages ≡ some s
    → host_messages_read cbor g (pos a) ptr cap ≡ some (g', r)
    → let fresh = keep (λ (m : StoredMessage). ltb a m.seq) s.msgs in
      (n : ℕ) × (n ≤ length fresh)
      × (read_guest_bytes g'.memory ptr r
          ≡ some (take (max0 cap) (encode_list cbor (take n fresh))))
      × (r ≡ pos (min (length (encode_list cbor (take n fresh))) (max0 cap)))
      × ((n ≡ 0) ⊎ (length (encode_list cbor (take n fresh)) ≤ max0 cap))
      × ((m : ℕ) → n < m → m ≤ length fresh → max0 cap < length (encode_list cbor (take m fresh)))
host_messages_read-LargestFit cbor g g' ptr cap r a s has h =
    let fresh = keep (λ (m : StoredMessage). ltb a m.seq) s.msgs in
    let (n, below, same, fits, larger) = encode_messages_cbor-LargestFit cbor fresh (max0 cap) in
    let src = encode_messages_cbor cbor fresh (max0 cap) in
    let (mem, mem', k, em, wrote_it, eg, en) =
      write-inversion g g' ptr (pos (max0 cap)) r src
        (sym (host_messages_read-write cbor g ptr cap a s has) ∙ h) in
    let (count, _, _, _, back) =
      write_guest_bytes-reads_back mem src mem' ptr (pos (max0 cap)) k wrote_it in
    (
      n,
      below,
      rw (eg, en, back)
          (ap some
            (ap (λ j. take j src) count ∙ take-min src (max0 cap) ∙ ap (take (max0 cap)) same)),
      rw (en, count) (ap (λ b. pos (min (length b) (max0 cap))) same),
      subst (λ b. (n ≡ 0) ⊎ (length b ≤ max0 cap)) same fits,
      larger,
    )
