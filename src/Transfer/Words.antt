-- ===== src/Transfer/Words.antt =====
-- The loops over the words of an array in `doPostRead` and `doWriteTransfer`
-- (include/OPC-UA-BackendRegisterAccessor.h). `none` is an access beyond the end of the array.
use device_access_opc_ua_bac.Prelude.{
  ℕ, zero, suc, ◌+◌, ◌≤◌, ◌<◌, ◌≡◌, ◌⊎◌, inl, inr, refl, ap, ◌∙◌, ◌≢◌, List, [], ◌∷◌, Option, none,
  some, get_elem?, length, arith,
}

module _ {ℓ} {A : Type ℓ} where
  unfoldable pub set_at : ℕ → A → List A → Option (List A)
  set_at i x [] = none
  set_at zero x (y ∷ ys) = some (x ∷ ys)
  set_at (suc i) x (y ∷ ys) = elim (set_at i x ys) [ none ↦ none | some zs ↦ some (y ∷ zs) ]

  -- `tmp[offset + i]` for every `i` below the number of words.
  unfoldable pub read_words : ℕ → ℕ → List A → Option (List A)
  read_words zero offset xs = some []
  read_words (suc n) offset xs = elim (get_elem? xs offset) [
    | none ↦ none
    | some x ↦ elim (read_words n (suc offset) xs) [ none ↦ none | some ys ↦ some (x ∷ ys) ]
  ]

  -- The words are stored from the offset on, one after the other.
  unfoldable pub write_words : List A → ℕ → List A → Option (List A)
  unfolding set_at
  write_words [] offset xs = some xs
  write_words (y ∷ ys) offset xs = elim (set_at offset y xs) [
    | none ↦ none
    | some zs ↦ write_words ys (suc offset) zs
  ]

  set_at_next :
      (i : ℕ) (x y : A) (ys zs : List A)
      → set_at i x ys ≡ some zs
      → set_at (suc i) x (y ∷ ys) ≡ some (y ∷ zs)
  unfolding set_at
  set_at_next i x y ys zs e = rw (e) refl

  read_words_next :
      (n offset : ℕ) (xs : List A) (x : A) (ys : List A)
      → get_elem? xs offset ≡ some x
      → read_words n (suc offset) xs ≡ some ys
      → read_words (suc n) offset xs ≡ some (x ∷ ys)
  unfolding read_words
  read_words_next n offset xs x ys e r = rw (e, r, read_words) refl

  write_words_next :
      (y : A) (ys : List A) (offset : ℕ) (xs ws zs : List A)
      → set_at offset y xs ≡ some ws
      → write_words ys (suc offset) ws ≡ some zs
      → write_words (y ∷ ys) offset xs ≡ some zs
  unfolding write_words
  write_words_next y ys offset xs ws zs e e' = rw (e, write_words) e'

  -- What storing one word at a place does.
  abbrev IsStored : ℕ → A → List A → List A → Type ℓ
  IsStored i x xs zs =
      (set_at i x xs ≡ some zs)
      × (length zs ≡ length xs)
      × (get_elem? zs i ≡ some x)
      × ((j : ℕ) → j ≢ i → get_elem? zs j ≡ get_elem? xs j)

  set_at_lem : (i : ℕ) (x : A) (xs : List A) → i < length xs → (zs : List A) × IsStored i x xs zs
  unfolding set_at
  set_at_lem i x [] h = absurd (omega arith)
  set_at_lem zero x (y ∷ ys) h = (x ∷ ys, (refl, refl, refl, apart))
    where
      apart : (j : ℕ) → j ≢ 0 → get_elem? (x ∷ ys) j ≡ get_elem? (y ∷ ys) j
      apart zero n = absurd (n refl)
      apart (suc j) n = refl
  set_at_lem (suc i) x (y ∷ ys) h =
      let (zs, (e, l, here, there)) = set_at_lem i x ys (omega arith) in
      (y ∷ zs, (set_at_next i x y ys zs e, omega (arith, l), here, apart zs there))
    where
      apart :
          (zs : List A)
          → ((j : ℕ) → j ≢ i → get_elem? zs j ≡ get_elem? ys j)
          → (j : ℕ) → j ≢ suc i
          → get_elem? (y ∷ zs) j ≡ get_elem? (y ∷ ys) j
      apart zs there zero n = refl
      apart zs there (suc j) n = there j (λ e. n (ap suc e))

  -- What storing words from an offset on does: they can be read there, and the rest is as before.
  abbrev pub IsWritten : List A → ℕ → List A → List A → Type ℓ
  IsWritten ys offset xs zs =
      (write_words ys offset xs ≡ some zs)
      × (length zs ≡ length xs)
      × (read_words (length ys) offset zs ≡ some ys)
      × ((j : ℕ) → (j < offset) ⊎ (offset + length ys ≤ j) → get_elem? zs j ≡ get_elem? xs j)

  pub write_words_lem :
      (ys : List A) (offset : ℕ) (xs : List A)
      → offset + length ys ≤ length xs
      → (zs : List A) × IsWritten ys offset xs zs
  unfolding write_words read_words
  write_words_lem [] offset xs h = (xs, (refl, refl, refl, (λ j o. refl)))
  write_words_lem (y ∷ ys) offset xs h =
      let (ws, (e, l, here, there)) = set_at_lem offset y xs (omega arith) in
      let (zs, (e', l', r, o)) = write_words_lem ys (suc offset) ws (omega (arith, l)) in
      let at : get_elem? zs offset ≡ some y = o offset (inl (omega arith)) ∙ here in
      (
        zs,
        (
          write_words_next y ys offset xs ws zs e e',
          l' ∙ l,
          read_words_next (length ys) offset zs y ys at r,
          (λ j h. outside ws zs there o j h),
        ),
      )
    where
      outside :
          (ws zs : List A)
          → ((j : ℕ) → j ≢ offset → get_elem? ws j ≡ get_elem? xs j)
          → ((j : ℕ)
              → (j < suc offset) ⊎ (suc offset + length ys ≤ j)
              → get_elem? zs j ≡ get_elem? ws j)
          → (j : ℕ) → (j < offset) ⊎ (offset + suc (length ys) ≤ j)
          → get_elem? zs j ≡ get_elem? xs j
      outside ws zs there o j (inl h) = o j (inl (omega arith)) ∙ there j (omega arith)
      outside ws zs there o j (inr h) = o j (inr (omega arith)) ∙ there j (omega arith)

  get_elem?_short : (i : ℕ) (xs : List A) → length xs ≤ i → get_elem? xs i ≡ none
  get_elem?_short i [] h = refl
  get_elem?_short zero (x ∷ xs) h = absurd (omega arith)
  get_elem?_short (suc i) (x ∷ xs) h = get_elem?_short i xs (omega arith)

  read_words_stop :
      (n offset : ℕ) (xs : List A) (o : Option A)
      → get_elem? xs offset ≡ o
      → read_words n (suc offset) xs ≡ none
      → read_words (suc n) offset xs ≡ none
  unfolding read_words
  read_words_stop n offset xs none e r = rw (e, read_words) refl
  read_words_stop n offset xs (some x) e r = rw (e, r, read_words) refl

  -- Words that reach beyond the end of an array cannot be read.
  pub read_words_short :
      (n offset : ℕ) (xs : List A) → 0 < n → length xs < offset + n → read_words n offset xs ≡ none
  unfolding read_words
  read_words_short zero offset xs h k = absurd (omega arith)
  read_words_short (suc zero) offset xs h k =
      rw (get_elem?_short offset xs (omega arith), read_words) refl
  read_words_short (suc (suc n)) offset xs h k =
      read_words_stop (suc n) offset xs (get_elem? xs offset) refl
        (read_words_short (suc n) (suc offset) xs (omega arith) (omega arith))
