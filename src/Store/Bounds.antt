-- ===== src/Store/Bounds.antt =====
-- Which characters a name of the store has, and how many.
use portapixel.Prelude.{
  AllIn, ℕ, zero, suc, ◌+◌, ◌-◌, ◌≤◌, ◌≡◌, refl, arith, true, ◌&&◌, [], ◌∷◌, ◌++◌, map, ltb, ◌==◌,
  length, take, if-case, if◌then◌else◌, Bytes, bytes,
}
use mathlib.Core.List.{reverse, reverse-cons}
use portapixel.Playlist.{ext_from}
use portapixel.Store.{
  max_name_len, is_safe, safe_char, has_double, join_once, join_runs, is_edge, drop_edge,
  trim_edges, keep_safe, byte_length, last_element, or_object, with_dot, safe_ext, cut, name_of,
  safe_name,
}

-- Safe characters, and no more than so many.
abbrev pub Within : ℕ → Bytes → Type 0
Within n s = AllIn (λ c. is_safe c ≡ true) s × (length s ≤ n)

Within-more : (n m : ℕ) (s : Bytes) → n ≤ m → Within n s → Within m s
Within-more n m s le (a, b) = (a, omega (arith, le, b))

Within-cons : (n c : ℕ) (s : Bytes) → is_safe c ≡ true → Within n s → Within (suc n) (c ∷ s)
Within-cons n c s safe (a, b) = ((safe, a), omega (arith, b))

pub Within-append : (n m : ℕ) (s t : Bytes) → Within n s → Within m t → Within (n + m) (s ++ t)
Within-append n m [] t (a, b) (c, d) = (c, omega (arith, d))
Within-append n m (x ∷ s) t (a, b) (c, d) =
    let rest = Within-append (length s) m s t (a.1, omega arith) (c, d) in
    ((a.0, rest.0), omega (arith, b, rest.1))

Within-reverse : (n : ℕ) (s : Bytes) → Within n s → Within n (reverse s)
Within-reverse n [] (a, b) = (tt, b)
Within-reverse n (x ∷ s) (a, b) = rw (reverse-cons x s) (
    Within-more (length s + 1) n _ (omega (arith, b)) (
      Within-append (length s) 1 (reverse s) (x ∷ [])
        (Within-reverse (length s) s (a.1, omega arith)) ((a.0, tt), omega arith)))

safe_char-safe : (c : ℕ) → is_safe (safe_char c) ≡ true
unfolding safe_char
safe_char-safe c = if-case (λ k. is_safe k ≡ true) (is_safe c) c b'-' (λ e. e) (λ e. refl)

Within-map : (s : Bytes) → Within (length s) (map safe_char s)
Within-map [] = (tt, omega arith)
Within-map (c ∷ s) =
    Within-cons (length s) (safe_char c) (map safe_char s) (safe_char-safe c) (Within-map s)

Within-join_once : (n : ℕ) (s : Bytes) → Within n s → Within n (join_once s)
unfolding join_once
Within-join_once n [] h = h
Within-join_once n (a ∷ []) h = h
Within-join_once n (a ∷ b ∷ rest) ((x, (y, z)), l) =
    let P : Bytes → Type 0 = Within n in
    let behind = Within-join_once (length rest) rest (z, omega arith) in
    let later = Within-join_once (suc (length rest)) (b ∷ rest) ((y, z), omega arith) in
    if-case P (a == b'-' && b == b'-') _ _ (λ e. ((refl, behind.0), omega (arith, l, behind.1)))
      (λ e. ((x, later.0), omega (arith, l, later.1)))

Within-join_runs : (turns n : ℕ) (s : Bytes) → Within n s → Within n (join_runs turns s)
unfolding join_runs
Within-join_runs zero n s h = h
Within-join_runs (suc turns) n s h =
    if-case (Within n) (has_double s) _ _
      (λ e. Within-join_runs turns n (join_once s) (Within-join_once n s h)) (λ e. h)

Within-drop_edge : (n : ℕ) (s : Bytes) → Within n s → Within n (drop_edge s)
unfolding drop_edge
Within-drop_edge n [] h = h
Within-drop_edge n (c ∷ s) (a, b) =
    if-case (Within n) (is_edge c) _ _ (λ e. Within-drop_edge n s (a.1, omega (arith, b)))
      (λ e. (a, b))

Within-trim_edges : (n : ℕ) (s : Bytes) → Within n s → Within n (trim_edges s)
unfolding trim_edges
Within-trim_edges n s h =
    Within-reverse n _ (Within-drop_edge n _ (Within-reverse n _ (Within-drop_edge n s h)))

Within-keep_safe : (s : Bytes) → Within (length s) (keep_safe s)
unfolding keep_safe
Within-keep_safe s =
    let out = map safe_char s in
    Within-trim_edges (length s) _ (Within-join_runs (length out) (length s) out (Within-map s))

Within-take : (n : ℕ) (s : Bytes) → AllIn (λ c. is_safe c ≡ true) s → Within n (take n s)
Within-take zero s a = (tt, omega arith)
Within-take (suc n) [] a = (tt, omega arith)
Within-take (suc n) (c ∷ s) a = Within-cons n c (take n s) a.0 (Within-take n s a.1)

object-safe : AllIn (λ c. is_safe c ≡ true) (bytes "object")
object-safe = (refl, (refl, (refl, (refl, (refl, (refl, tt))))))

Within-or_object : (n : ℕ) (s : Bytes) → 6 ≤ n → Within n s → Within n (or_object s)
Within-or_object n [] le h = (object-safe, omega (arith, le))
Within-or_object n (c ∷ s) le h = h

safe_or_object :
    (s : Bytes) → AllIn (λ c. is_safe c ≡ true) s → AllIn (λ c. is_safe c ≡ true) (or_object s)
safe_or_object [] a = object-safe
safe_or_object (c ∷ s) a = a

Within-cut :
    (room : ℕ) (s : Bytes) → 6 ≤ room → AllIn (λ c. is_safe c ≡ true) s → Within room (cut room s)
unfolding cut
Within-cut room s le a =
    if-case (Within room) (ltb room (length s)) _ _
      (λ e. Within-or_object room _ le (Within-trim_edges room _ (Within-take room s a)))
      (λ e. (a, ground (arith, e)))

Within-with_dot : (n : ℕ) (s : Bytes) → Within n s → Within (suc n) (with_dot s)
Within-with_dot n [] h = (tt, omega arith)
Within-with_dot n (c ∷ s) h = Within-cons n b'.' (c ∷ s) refl h

Within-safe_ext : (ext : Bytes) → Within (length ext) (safe_ext ext)
Within-safe_ext [] = (tt, omega arith)
Within-safe_ext (c ∷ ext) = Within-with_dot (length ext) _ (Within-keep_safe ext)

length-byte_length : (s : Bytes) → length s ≤ byte_length s
unfolding byte_length
length-byte_length [] = omega arith
length-byte_length (c ∷ s) = ground (arith, length-byte_length s)

Within-name_of : (stem ext : Bytes) → length ext ≤ 10 → Within max_name_len (name_of stem ext)
unfolding name_of
Within-name_of stem ext short =
    let kept = Within-safe_ext ext in
    let room = max_name_len - length (safe_ext ext) in
    let named =
      Within-cut room (or_object (keep_safe stem)) (omega (arith, short, kept.1))
        (safe_or_object _ (Within-keep_safe stem).0) in
    Within-more (room + length (safe_ext ext)) max_name_len _ (omega (arith, short, kept.1))
      (Within-append room (length (safe_ext ext)) _ (safe_ext ext) named (kept.0, omega arith))

short_ext : (found : Bytes) → length (if ltb 10 (byte_length found) then [] else found) ≤ 10
short_ext found =
    if-case (λ (e : Bytes). length e ≤ 10) (ltb 10 (byte_length found)) _ _ (λ h. omega arith)
      (λ h. ground (arith, h, length-byte_length found))

-- A safe name has safe characters only, and 64 of them at most.
pub Within-safe_name : (orig : Bytes) → Within max_name_len (safe_name orig)
unfolding safe_name
Within-safe_name orig = Within-name_of _ _ (short_ext (ext_from (reverse (last_element orig)) []))
