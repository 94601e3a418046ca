-- ===== src/Klog/Ring.antt =====
-- The kernel log against a list of everything that was ever logged.
use Prim.Native.String.{String}
use mathlib.Core.List.{append-nil, append_assoc}
use mathlib.Core.Option.{some-injective}
use rustos.Prelude.{
  ℕ, zero, suc, ◌+◌, ◌-◌, ◌%◌, ◌^◌, true, lt→ltb, ◌≤◌, ◌<◌, min, ◌≡◌, ◌≢◌, refl, sym, ap, ◌∙◌,
  subst, List, [], ◌∷◌, ◌++◌, map, some, length, get_elem?, drop, set, length-append, length-set,
  get_elem?-append_left, get_elem?-append_last, get_elem?-set_self, get_elem?-set_ne,
  get_elem?-none, Option-cases, ltb, ltb→lt, ◌==◌, ==_iff, ==_false_iff, Bool-cases, inl, inr, Run,
  done, ◌>>=◌, unwrap, store_in_range, arith,
}
use rustos.Klog.{
  LogEntry, KernelLog, new, log, len, written, advanced, numbered, gather, format_entry, read_all,
}

-- The log after the entries `es`, the newest last: entry j stands at position j % 512 of the ring
-- until 512 newer ones have come.
abbrev Holds : KernelLog → List LogEntry → Type 0
Holds k es =
    (k.count ≡ min (length es) 512)
    × (k.write_pos ≡ length es % 512)
    × (length k.buffer ≡ k.count)
    × (k.sequence ≡ length es)
    × ((j : ℕ)
        → j < length es
        → length es ≤ j + 512
        → get_elem? k.buffer (j % 512) ≡ get_elem? es j)

-- The entry is at its place in the buffer, and the others that still count are as before.
abbrev Written : KernelLog → List LogEntry → LogEntry → List LogEntry → Type 0
Written k es e buffer =
    (length buffer ≡ min (length es + 1) 512)
    × (get_elem? buffer (length es % 512) ≡ some e)
    × ((i : ℕ)
        → i ≢ length es % 512
        → i < length k.buffer
        → get_elem? buffer i ≡ get_elem? k.buffer i)

written-Written :
    (k : KernelLog) (es : List LogEntry) (e : LogEntry)
    → Holds k es
    → (buffer : List LogEntry) × (written k e ≡ done buffer) × Written k es e buffer
written-Written k es e (count, pos, size, seq, held) =
    elim (Bool-cases (ltb (length k.buffer) 512)) [
      | inl short ↦
          let lt = ltb→lt (length k.buffer) 512 short in
          (
            k.buffer ++ e ∷ [],
            rw short refl,
            (
              omega (arith, length-append k.buffer (e ∷ [])),
              get_elem?-append_last k.buffer e (length es % 512) (omega arith),
              λ i ne h. get_elem?-append_left k.buffer (e ∷ []) i h,
            ),
          )
      | inr full ↦
          let ge : 512 ≤ length k.buffer = ground arith in
          (
            set k.buffer k.write_pos e,
            rw full (store_in_range k.buffer k.write_pos e (omega arith)),
            (
              omega (arith, length-set k.buffer k.write_pos e),
              subst (λ p. get_elem? (set k.buffer p e) (length es % 512) ≡ some e) (sym pos)
                  (get_elem?-set_self k.buffer (length es % 512) e (omega arith)),
              λ i ne h. get_elem?-set_ne k.buffer k.write_pos i e (λ q. ne (sym q ∙ pos)),
            ),
          )
    ]

-- Positions of entries less than a ring apart.
apart : (j n : ℕ) → j < n → n < j + 512 → ¬ (j % 512 ≡ n % 512)
apart j n lt near same = absurd (omega arith)

held_after :
    (k : KernelLog) (es : List LogEntry) (e : LogEntry) (buffer : List LogEntry)
    → ((j : ℕ)
        → j < length es
        → length es ≤ j + 512
        → get_elem? k.buffer (j % 512) ≡ get_elem? es j)
    → length k.buffer ≡ k.count
    → k.count ≡ min (length es) 512
    → (get_elem? buffer (length es % 512) ≡ some e)
      × ((i : ℕ)
          → i ≢ length es % 512
          → i < length k.buffer
          → get_elem? buffer i ≡ get_elem? k.buffer i)
    → (j : ℕ) → j < length (es ++ e ∷ [])
    → length (es ++ e ∷ []) ≤ j + 512
    → get_elem? buffer (j % 512) ≡ get_elem? (es ++ e ∷ []) j
held_after k es e buffer held size count (new_one, others) j lt recent =
    let longer = length-append es (e ∷ []) in
    elim (Bool-cases (j == length es)) [
      | inl last ↦
          let same : j ≡ length es = (==_iff _ _).0 last in
          ap (λ n. get_elem? buffer (n % 512)) same
          ∙ new_one
          ∙ sym (get_elem?-append_last es e j same)
      | inr earlier ↦
          let ne : ¬ (j ≡ length es) = (==_false_iff _ _).0 earlier in
          let before : j < length es = ground (arith, longer, ne) in
          others (j % 512) (λ q. apart j (length es) before (omega (arith, longer)) q) (omega arith)
          ∙ held j before (omega (arith, longer))
          ∙ sym (get_elem?-append_left es (e ∷ []) j before)
    ]

log-Holds :
    (k : KernelLog) (es : List LogEntry) (e : LogEntry)
    → Holds k es
    → length es + 1 < 2 ^ 64
    → (k' : KernelLog) × (log k e.timestamp_ticks e.level e.message ≡ done k')
      × Holds k' (es ++ e ∷ [])
unfolding log
log-Holds k es e (count, pos, size, seq, held) small =
    let (buffer, done_with, (size', new_one, others)) =
      written-Written k es e (count, pos, size, seq, held) in
    let longer = length-append es (e ∷ []) in
    let room : ltb (k.sequence + 1) (2 ^ 64) ≡ true = lt→ltb _ _ (omega arith) in
    (
      advanced k buffer,
      ap (λ r. r >>= numbered k) done_with ∙ rw room refl,
      (
        ground (arith, longer),
        omega (arith, longer),
        ground (arith, longer),
        omega (arith, longer),
        held_after k es e buffer held size count (new_one, others),
      ),
    )

module _ {ℓ} {A : Type ℓ} where
  drop-ge : (xs : List A) (i : ℕ) → length xs ≤ i → drop i xs ≡ []
  drop-ge [] zero h = refl
  drop-ge [] (suc i) h = refl
  drop-ge (x ∷ xs) zero h = absurd (omega arith)
  drop-ge (x ∷ xs) (suc i) h = drop-ge xs i (omega arith)

  drop_step :
      (xs : List A) (i : ℕ) (x : A) → get_elem? xs i ≡ some x → drop i xs ≡ x ∷ drop (suc i) xs
  drop_step [] i x e = cc
  drop_step (y ∷ xs) zero x e = ap (λ z. z ∷ xs) (some-injective _ _ e)
  drop_step (y ∷ xs) (suc i) x e = drop_step xs i x e

module _ (format : ℕ → ℕ → String → String → String) (buffer es : List LogEntry) (at : ℕ → ℕ)
    (base : ℕ) where
  gather-drop :
      (rounds i : ℕ)
      → ((r : ℕ) → i ≤ r → r < i + rounds → get_elem? buffer (at r) ≡ get_elem? es (base + r))
      → base + i + rounds ≡ length es
      → gather format buffer at rounds i ≡ done (map (format_entry format) (drop (base + i) es))
  unfolding gather
  gather-drop zero i there all =
      ap (λ l. done (map (format_entry format) l)) (sym (drop-ge es (base + i) (omega arith)))
  gather-drop (suc rounds) i there all = elim (Option-cases (get_elem? es (base + i))) [
    | inl gone ↦ let short = get_elem?-none es (base + i) gone in absurd (omega arith)
    | inr (x, here) ↦
        let found : get_elem? buffer (at i) ≡ some x = there i (omega arith) (omega arith) ∙ here in
        let rest =
          gather-drop rounds (i + 1) (λ r lo hi. there r (omega arith) (omega arith))
            (omega arith) in
        let next : base + (i + 1) ≡ suc (base + i) = omega arith in
        ap
          (λ o. unwrap o >>= λ e. gather format buffer at rounds (i + 1) >>= λ lines.
            done (format_entry format e ∷ lines))
          found
        ∙ ap (λ l. l >>= λ lines. done (format_entry format x ∷ lines)) rest
        ∙ ap (λ n. done (map (format_entry format) (x ∷ drop n es))) next
        ∙ ap (λ l. done (map (format_entry format) l)) (sym (drop_step es (base + i) x here))
  ]

-- What was logged, in order: the ticks, the level and the message.
abbrev pub log_all : KernelLog → List LogEntry → Run KernelLog
log_all k [] = done k
log_all k (e ∷ es) = log k e.timestamp_ticks e.level e.message >>= λ k'. log_all k' es

log_all-Holds :
    (k : KernelLog) (before es : List LogEntry)
    → Holds k before
    → length before + length es < 2 ^ 64
    → (k' : KernelLog) × (log_all k es ≡ done k') × Holds k' (before ++ es)
log_all-Holds k before [] holds small = (k, refl, subst (Holds k) (sym (append-nil before)) holds)
log_all-Holds k before (e ∷ es) holds small =
    let (k1, e1, h1) = log-Holds k before e holds (omega (arith, small)) in
    let (k2, e2, h2) =
      log_all-Holds k1 (before ++ e ∷ []) es h1
        (omega (arith, small, length-append before (e ∷ []))) in
    (
      k2,
      ap (λ r. r >>= λ k'. log_all k' es) e1 ∙ e2,
      subst (Holds k2) (append_assoc before (e ∷ []) es) h2,
    )

zero_plus : (n : ℕ) → n ≡ 0 + n
zero_plus n = omega arith

read_all-Holds :
    (format : ℕ → ℕ → String → String → String) (k : KernelLog) (es : List LogEntry)
    → Holds k es
    → read_all format k ≡ done (map (format_entry format) (drop (length es - 512) es))
unfolding read_all
read_all-Holds format k es (count, pos, size, seq, held) = elim (Bool-cases (ltb k.count 512)) [
  | inl few ↦
      let lt = ltb→lt k.count 512 few in
      let none_gone : length es - 512 ≡ 0 + 0 = omega arith in
      rw few (
        gather-drop format k.buffer es (λ i. i) 0 k.count 0
          (λ r lo hi.
            let small : r ≡ r % 512 = omega arith in
            ap (get_elem? k.buffer) small
            ∙ held r (omega arith) (omega arith)
            ∙ ap (get_elem? es) (zero_plus r))
          (omega arith)
        ∙ ap (λ n. done (map (format_entry format) (drop n es))) (sym none_gone))
  | inr many ↦
      let full : k.count ≡ 512 = ground arith in
      let gone : length es - 512 ≡ length es - 512 + 0 = omega arith in
      rw many (
        gather-drop format k.buffer es (λ i. (k.write_pos + i) % 512) (length es - 512) 512 0
          (λ r lo hi.
            let place : (k.write_pos + r) % 512 ≡ (length es - 512 + r) % 512 = omega arith in
            ap (get_elem? k.buffer) place ∙ held (length es - 512 + r) (omega arith) (omega arith))
          (omega arith)
        ∙ ap (λ n. done (map (format_entry format) (drop n es))) (sym gone))
]

new-Holds : Holds new []
unfolding new
new-Holds = (refl, refl, refl, refl, λ j lt near. refl)

-- Logging fewer than 2^64 entries in a new log does not panic. The log then reads as the formatted
-- last 512 of them, or all if there are fewer, the oldest first; it counts those, and its sequence
-- number is the number of all entries.
pub read_all-log_all :
    (format : ℕ → ℕ → String → String → String) (es : List LogEntry)
    → length es < 2 ^ 64
    → (k : KernelLog) × (log_all new es ≡ done k)
      × (read_all format k ≡ done (map (format_entry format) (drop (length es - 512) es)))
      × (len k ≡ min (length es) 512)
      × (k.sequence ≡ length es)
unfolding len
read_all-log_all format es small =
    let (k, e, holds) = log_all-Holds new [] es new-Holds (omega (arith, small)) in
    (k, e, read_all-Holds format k es holds, holds.0, holds.3)
