-- ===== src/Jws/Split.antt =====
-- The three sections of a signature in jws_utils.c.
use mbed_ce_client_for_azure.Base.{
  ◌↔◌, ℕ, zero, suc, ◌+◌, ◌-◌, ◌<◌, ◌≤◌, ◌≡◌, refl, ap, ◌∙◌, Bool, true, false, not, ◌&&◌, none,
  some, List, [], ◌∷◌, ◌++◌, Bytes, length, take, drop, All, ◌==◌, arith, length-append,
  Option-cases, inl, inr, take-length_append, leb,
}
use mbed_ce_client_for_azure.Strings.UpdateType.{strchr}
use mbed_ce_client_for_azure.Strings.UpdateType.Split.{strchr-append, strchr_inv, drop-suc-length}
use mbed_ce_client_for_azure.Jws.{Sections, find_char_in_string, extract_jws_sections}

abbrev pub HasNoDot : Bytes → Type 0
HasNoDot s = All (λ x. not (x == b'.')) s

-- A text is the header, a '.', the payload, a '.', and the signature; there is no '.' in the first two,
-- and none is empty.
pub record Splits (jws : Bytes) (x : Sections) : Type 0 where
  pub whole : jws ≡ x.header ++ b'.' ∷ (x.payload ++ b'.' ∷ x.signature)
  pub header_dots : HasNoDot x.header
  pub payload_dots : HasNoDot x.payload
  pub header_size : 0 < length x.header
  pub payload_size : 0 < length x.payload
  pub signature_size : 0 < length x.signature

take_all {ℓ} : {A : Type ℓ} (n : ℕ) (xs : List A) → length xs ≤ n → take n xs ≡ xs
take_all zero [] h = refl
take_all zero (x ∷ xs) h = absurd (omega (arith, h))
take_all (suc n) [] h = refl
take_all (suc n) (x ∷ xs) h = ap (λ t. x ∷ t) (take_all n xs (omega (arith, h)))

found : (s : Bytes) (i : ℕ) → strchr s b'.' ≡ some i → (find_char_in_string s b'.').0 ≡ i
unfolding find_char_in_string
found s i e = ground (arith, e)

missing : (s : Bytes) → strchr s b'.' ≡ none → (find_char_in_string s b'.').0 ≡ 0
unfolding find_char_in_string
missing s e = ground (arith, e)

first_dot :
    (s : Bytes)
    → 0 < (find_char_in_string s b'.').0
    → let n = (find_char_in_string s b'.').0 in
      (s ≡ take n s ++ b'.' ∷ drop (suc n) s) × (length (take n s) ≡ n) × HasNoDot (take n s)
first_dot s h = elim (Option-cases (strchr s b'.')) [
  | inl e ↦ absurd (omega (arith, missing s e, h))
  | inr (i, e) ↦ rw (found s i e) (strchr_inv s b'.' i e)
]

sections_sound :
    (allocates : ℕ → Bool) (jws : Bytes) (x : Sections)
    → extract_jws_sections allocates (some jws) ≡ some x
    → Splits jws x
unfolding extract_jws_sections
sections_sound allocates jws x h =
    let n = (find_char_in_string jws b'.').0 in
    let after = drop (suc n) jws in
    let m = (find_char_in_string after b'.').0 in
    let pos : 0 < n = ground (arith, h) in
    let pos' : 0 < m = ground (arith, h) in
    let room : n + m + 2 < length jws = ground (arith, h) in
    let header : x.header ≡ take n jws = ground (arith, h) in
    let payload : x.payload ≡ take m after = ground (arith, h) in
    let signature : x.signature ≡ take (length jws - m - n - 2) (drop (suc m) after) =
      ground (arith, h) in
    let (w, l, d) = first_dot jws pos in
    let (w', l', d') = first_dot after pos' in
    let size : length jws ≡ n + suc (length after) =
      omega (arith, ap length w, length-append (take n jws) (b'.' ∷ after), l) in
    let size' : length after ≡ m + suc (length (drop (suc m) after)) =
      omega (arith, ap length w', length-append (take m after) (b'.' ∷ drop (suc m) after), l') in
    let whole_rest : x.signature ≡ drop (suc m) after =
      signature ∙ take_all (length jws - m - n - 2) (drop (suc m) after) (omega arith) in
    record {
      whole = w ∙ ap (λ t. take n jws ++ b'.' ∷ t) w' ∙ rw (header, payload, whole_rest) refl;
      header_dots = rw header d;
      payload_dots = rw payload d';
      header_size = rw header (omega (arith, l, pos));
      payload_size = rw payload (omega (arith, l', pos'));
      signature_size = rw whole_rest (omega (arith, room, size, size'));
    }

dot_after :
    (s rest : Bytes) → HasNoDot s → (find_char_in_string (s ++ b'.' ∷ rest) b'.').0 ≡ length s
dot_after s rest none_before =
    found (s ++ b'.' ∷ rest) (length s) (strchr-append s b'.' rest none_before)

sections_of :
    (allocates : ℕ → Bool) (h p s : Bytes)
    → ((n : ℕ) → allocates n ≡ true)
    → HasNoDot h
    → HasNoDot p
    → 0 < length h
    → 0 < length p
    → 0 < length s
    → extract_jws_sections allocates (some (h ++ b'.' ∷ (p ++ b'.' ∷ s)))
      ≡ some (record { header = h; payload = p; signature = s })
unfolding extract_jws_sections
sections_of allocates h p s memory hd pd hn pn sn =
    let after = p ++ b'.' ∷ s in
    let jws = h ++ b'.' ∷ after in
    let n : (find_char_in_string jws b'.').0 ≡ length h = dot_after h after hd in
    let a : drop (suc (length h)) jws ≡ after = drop-suc-length h b'.' after in
    let m : (find_char_in_string after b'.').0 ≡ length p = dot_after p s pd in
    let b : drop (suc (length p)) after ≡ s = drop-suc-length p b'.' s in
    let size : length jws ≡ length h + suc (length p + suc (length s)) =
      omega (arith, length-append h (b'.' ∷ after), length-append p (b'.' ∷ s)) in
    let room : leb (length jws) (length h + 1) ≡ false = ground arith in
    let room' : leb (length jws) (length h + length p + 2) ≡ false = ground arith in
    let some_text : (length jws == 0) ≡ false = ground arith in
    let head : (length h == 0) ≡ false = ground arith in
    let body : (length p == 0) ≡ false = ground arith in
    let left : length s ≤ length jws - length p - length h - 2 = omega arith in
    let all : allocates (length h + 1)
          && allocates (length p + 1)
          && allocates (length jws - length p - length h - 2 + 1)
        ≡ true =
      rw
        (
          memory (length h + 1),
          memory (length p + 1),
          memory (length jws - length p - length h - 2 + 1),
        )
        refl in
    rw
      (
        n,
        a,
        m,
        b,
        some_text,
        head,
        room,
        body,
        room',
        all,
        take-length_append h (b'.' ∷ after),
        take-length_append p (b'.' ∷ s),
        take_all (length jws - length p - length h - 2) s left,
      )
      refl

-- A text is only taken apart as it splits at its first two '.': into a header and a payload without
-- '.', and a signature, none of them empty. With memory, each text that splits so is taken apart.
pub extract_jws_sections_lem :
    (allocates : ℕ → Bool) (jws : Bytes) (x : Sections)
    → (extract_jws_sections allocates (some jws) ≡ some x → Splits jws x)
      × (((n : ℕ) → allocates n ≡ true)
          → Splits jws x
          → extract_jws_sections allocates (some jws) ≡ some x)
extract_jws_sections_lem allocates jws x = (
  sections_sound allocates jws x,
  λ memory s. rw s.whole (
      sections_of allocates x.header x.payload x.signature memory s.header_dots s.payload_dots
        s.header_size s.payload_size s.signature_size),
)

-- With memory, a text is taken apart exactly as it splits at its first two '.': into a header and a payload
-- without '.', and a signature, none of them empty.
pub extract_jws_sections-Splits :
    (allocates : ℕ → Bool) (jws : Bytes) (x : Sections)
    → ((n : ℕ) → allocates n ≡ true)
    → (extract_jws_sections allocates (some jws) ≡ some x) ↔ Splits jws x
extract_jws_sections-Splits allocates jws x memory =
    let l = extract_jws_sections_lem allocates jws x in (l.0, l.1 memory)
