-- ===== src/Ebc/Fb/Extent.antt =====
-- The length that is mapped, and what of the mapping and of `info` is read.
use palma2pro_eos.Base.{
  ℕ, zero, suc, ◌+◌, ◌/◌, ◌%◌, ◌≤◌, ◌<◌, ◌≡◌, refl, ap, ◌∙◌, inl, inr, Option, none, some, List, [],
  ◌∷◌, ◌++◌, arith, ◌==◌, All, All-append, Bool-cases, Option-cases,
}
use palma2pro_eos.Base.Int.{ℤ, pos, ltb_ℤ}
use palma2pro_eos.Ebc.Device.{Text}
use palma2pro_eos.Ebc.Fb.{
  Options, Env, Call, open_ebc, ioctl, show, mmap, load, munmap, close, read_args, shown, shows,
  round_up, map_len, loads, inspect, dump, main,
}

-- A call that asks the driver for nothing but the information, and that stays within the words of
-- `info` and a mapping of `len` bytes, whole pages.
abbrev pub IsInside : ℕ → Call → Type 0
IsInside len open_ebc = Unit
IsInside len (ioctl fd request) = request ≡ pos 0x7003
IsInside len (show i) = i < 64
IsInside len (mmap fd n) = (n ≡ len) × (n % 4096 ≡ 0)
IsInside len (load a) = a < len
IsInside len (munmap n) = n ≡ len
IsInside len (close fd) = Unit

shows-IsInside : (len n i : ℕ) → n + i ≤ 64 → All (IsInside len) (shows n i)
unfolding shows
shows-IsInside len zero i h = tt
shows-IsInside len (suc n) i h = (omega arith, shows-IsInside len n (i + 1) (omega arith))

shown_few : (words : ℤ) → shown words + 0 ≤ 64
shown_few words = ground arith

loads-IsInside : (len n a : ℕ) → n + a ≤ len → All (IsInside len) (loads n a)
unfolding loads
loads-IsInside len zero a h = tt
loads-IsInside len (suc n) a h = (omega arith, loads-IsInside len n (a + 1) (omega arith))

round_up-pages : (n : ℕ) → round_up n % 4096 ≡ 0
unfolding round_up
round_up-pages n = omega arith

map_len-pages : (e : Env) (o : Options) → map_len e o % 4096 ≡ 0
unfolding map_len
map_len-pages e o = round_up-pages _

-- A mapping that is there has room for both samples.
inspect-IsInside :
    (e : Env) (len : ℕ) (m : Option (ℕ → ℕ))
    → len % 4096 ≡ 0
    → (len ≡ 0 → m ≡ none)
    → All (IsInside len) (inspect e len m).calls
unfolding inspect
inspect-IsInside e len none pages empty = (tt, tt)
inspect-IsInside e len (some mem) pages empty = elim (Bool-cases (len == 0)) [
  | inl z ↦ absurd (cc (empty (ground arith)))
  | inr z ↦
      let page : 4096 ≤ len = ground arith in
      All-append (IsInside len) _ _
        (All-append (IsInside len) _ _
          (All-append (IsInside len) _ _ (loads-IsInside len len 0 (omega arith))
            (loads-IsInside len 64 0 (omega arith)))
          (loads-IsInside len 64 (len / 2) (omega arith)))
        (refl, (tt, tt))
]

dump-IsInside :
    (e : Env) (o : Options) → e.mapping 0 ≡ none → All (IsInside (map_len e o)) (dump e o).calls
unfolding dump
dump-IsInside e o empty =
    let len = map_len e o in
    let tail : List Call = mmap e.fd len ∷ (inspect e len (e.mapping len)).calls in
    let head : List Call = open_ebc ∷ ioctl e.fd (pos 0x7003) ∷ [] in
    let rest : All (IsInside len) tail = (
      (refl, map_len-pages e o),
      inspect-IsInside e len (e.mapping len) (map_len-pages e o) (λ z. ap e.mapping z ∙ empty),
    ) in
    elim (Bool-cases (ltb_ℤ e.fd (pos 0))) [
      | inl c ↦ rw c (tt, tt)
      | inr c ↦ rw c (
          All-append (IsInside len) (head ++ shows (shown o.words) 0) tail
            (All-append (IsInside len) head _ (tt, (refl, tt))
              (shows-IsInside len (shown o.words) 0 (shown_few o.words)))
            rest)
    ]

-- Where `mmap` refuses a mapping of no bytes: whatever the arguments, the answers and the driver's
-- words, there is a length such that the run maps just that, in whole pages, and unmaps nothing
-- else; every read of the mapping, for the histogram and both samples, is of a byte below it; only
-- the 64 words of `info` are printed; and the only request to the driver is EBC_GET_BUFFER_INFO.
pub main-IsInside :
    (e : Env) (args : List Text)
    → e.mapping 0 ≡ none
    → (len : ℕ) × All (IsInside len) (main e args).calls
unfolding main
main-IsInside e args empty =
    elim (Option-cases (read_args e args (record { map_len = 0; words = pos 32 }))) [
      | inl n ↦ (0, rw (n, main) tt)
      | inr (o, s) ↦ (map_len e o, rw (s, main) (dump-IsInside e o empty))
    ]
