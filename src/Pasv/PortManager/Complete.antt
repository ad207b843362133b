-- ===== src/Pasv/PortManager/Complete.antt =====
-- When `allocate` finds a free port: always, until the 32-bit cursor wraps within one call.
use native.Mathlib.Nat.{
  add-mod-mod, mul-add-mod_self_left, mod-eq_of_lt, div-add-mod, suc-mod, mod_self, mod-lt,
}
use iot_ftp_upload_gateway.Base.{
  ℕ, zero, suc, ◌+◌, ◌-◌, ◌*◌, ◌/◌, ◌%◌, ◌^◌, ◌≤◌, ◌<◌, ◌≡◌, ◌≢◌, ◌⊎◌, refl, sym, ap, ◌∙◌, Bool,
  true, false, none, arith, contains, Bool-cases, inl, inr,
}
use iot_ftp_upload_gateway.Pasv.PortManager.{
  PortManager, range_size, port_at, search, allocate, IsValid,
}
use iot_ftp_upload_gateway.Pasv.PortManager.Search.{
  range_size_lem, port_at_bounds, advance, current, search_taken, search_bound, search_refused,
}

-- The port that round `i` of a search tries.
abbrev tried : PortManager → ℕ → ℕ
tried m i = port_at m.range ((m.next_offset + i) % 2 ^ 32)

tried_zero : (m : PortManager) → m.next_offset < 2 ^ 32 → tried m 0 ≡ current m
tried_zero m h = ap (port_at m.range) (omega arith)

tried-advance : (m : PortManager) (i : ℕ) → tried (advance m) i ≡ tried m (suc i)
tried-advance m i = ap (port_at m.range) (omega arith)

search_finds :
    (bind : ℕ → ℕ → Bool) (k : ℕ) (m : PortManager) (i port : ℕ)
    → m.next_offset < 2 ^ 32
    → i < k
    → tried m i ≡ port
    → contains port m.in_use ≡ false
    → ((round : ℕ) → bind round port ≡ true)
    → (search bind k m).0 ≢ none
search_finds bind zero m i port v l e free can = absurd (omega arith)
search_finds bind (suc k) m zero port v l e free can =
    let here : current m ≡ port = sym (tried_zero m v) ∙ e in
    rw (search_bound bind k m (rw here free) (rw here (can k))) (λ q. cc)
search_finds bind (suc k) m (suc i) port v l e free can =
    let later =
      search_finds bind k (advance m) i port (omega arith) (omega arith) (tried-advance m i ∙ e)
        free can in
    elim (Bool-cases (contains (current m) m.in_use)) [
      | inl taken ↦ rw (search_taken bind k m taken) later
      | inr unused ↦ elim (Bool-cases (bind k (current m))) [
        | inl bound ↦ rw (search_bound bind k m unused bound) (λ q. cc)
        | inr refused ↦ rw (search_refused bind k m unused refused) later
      ]
    ]

-- The number of rounds after which the cursor stands at offset `off`.
hit : (s c off : ℕ) → off < s → (c + (off + s - c % s) % s) % s ≡ off
hit s c off h =
    add-mod-mod c (off + s - c % s) s
    ∙ ap (λ t. t % s) whole
    ∙ mul-add-mod_self_left s (c / s + 1) off
    ∙ mod-eq_of_lt h
  where
    whole : c + (off + s - c % s) ≡ s * (c / s + 1) + off
    whole = omega (arith, div-add-mod c s, mod-lt c {m = s} (omega arith))

search_all_taken :
    (bind : ℕ → ℕ → Bool) (k : ℕ) (m : PortManager)
    → m.next_offset < 2 ^ 32
    → ((i : ℕ) → i < k → contains (tried m i) m.in_use ≡ true)
    → (search bind k m).0 ≡ none
search_all_taken bind zero m v h = unfold search in refl
search_all_taken bind (suc k) m v h =
    rw (search_taken bind k m (rw (tried_zero m v) at (h 0 (omega arith)))) (
      search_all_taken bind k (advance m) (omega arith)
        (λ i l. rw (tried-advance m i) (h (suc i) (omega arith))))

-- While the cursor does not wrap within the call, a port of the range that is free and can be
-- bound is enough for `allocate` to give out a port.
pub allocate-ne-none :
    (bind : ℕ → ℕ → Bool) (m : PortManager) (port : ℕ)
    → IsValid m
    → m.next_offset + range_size m.range ≤ 2 ^ 32
    → m.range.start ≤ port
    → port ≤ m.range.end
    → contains port m.in_use ≡ false
    → ((round : ℕ) → bind round port ≡ true)
    → (allocate bind m).0 ≢ none
unfolding allocate
allocate-ne-none bind m port v fits low high free can =
    search_finds bind s m ((off + s - m.next_offset % s) % s) port v.u32_next
      (mod-lt _ {m = s} s_pos) at_port free can
  where
    s : ℕ
    s = range_size m.range

    off : ℕ
    off = port - m.range.start

    s_lem : s ≡ m.range.end - m.range.start + 1
    s_lem = range_size_lem m.range v.ordered v.u16_end

    s_pos : 0 < s
    s_pos = omega (arith, s_lem)

    i_lt : (off + s - m.next_offset % s) % s < s
    i_lt = mod-lt _ {m = s} s_pos

    unwrapped : (m.next_offset + (off + s - m.next_offset % s) % s) % 2 ^ 32 % s ≡ off
    unwrapped =
        ap (λ t. t % s) (mod-eq_of_lt {m = 2 ^ 32} (omega (arith, i_lt)))
        ∙ hit s m.next_offset off (omega (arith, s_lem))

    at_port : tried m ((off + s - m.next_offset % s) % s) ≡ port
    at_port = ap (λ t. (m.range.start + t % 2 ^ 16) % 2 ^ 16) unwrapped ∙ omega arith

before_multiple : (s n : ℕ) → 0 < s → suc n % s ≢ 0 → n % s + 1 < s
before_multiple s n h k = elim (last_or_before (n % s) s (mod-lt n {m = s} h)) [
  | inl last ↦ absurd (k (suc-mod n s ∙ ap (λ t. t % s) last ∙ mod_self s))
  | inr before ↦ before
]
  where
    last_or_before : (a b : ℕ) → a < b → (suc a ≡ b) ⊎ (a + 1 < b)
    last_or_before a b l = grind arith

-- When the cursor is about to wrap and the size of the range does not divide 2 ^ 32, the last port
-- of the range is passed over: it may be free, and `allocate` still finds nothing.
pub allocate_wrap_misses :
    (bind : ℕ → ℕ → Bool) (m : PortManager)
    → IsValid m
    → m.next_offset ≡ 2 ^ 32 - 1
    → 2 ^ 32 % range_size m.range ≢ 0
    → ((port : ℕ) → m.range.start ≤ port → port < m.range.end → contains port m.in_use ≡ true)
    → (allocate bind m).0 ≡ none
unfolding allocate
allocate_wrap_misses bind m v at_end odd used =
    search_all_taken bind (range_size m.range) m v.u32_next
      λ i l. used (tried m i) (port_at_bounds m.range _ v.ordered v.u16_end).0 (misses i l)
  where
    s : ℕ
    s = range_size m.range

    s_lem : s ≡ m.range.end - m.range.start + 1
    s_lem = range_size_lem m.range v.ordered v.u16_end

    short : (i : ℕ) → i < s → (m.next_offset + i) % 2 ^ 32 % s + 1 < s
    short zero l =
        let here : (m.next_offset + 0) % 2 ^ 32 ≡ 2 ^ 32 - 1 = omega arith in
        rw here (before_multiple s (2 ^ 32 - 1) (omega (arith, s_lem)) odd)
    short (suc i) l =
        let wrapped : (m.next_offset + suc i) % 2 ^ 32 ≡ i = omega (arith, s_lem) in
        rw (wrapped, mod-eq_of_lt {n = i} {m = s} (omega arith)) (omega arith)

    misses : (i : ℕ) → i < s → tried m i < m.range.end
    misses i l = omega (arith, short i l, s_lem)
