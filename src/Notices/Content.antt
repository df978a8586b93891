-- ===== src/Notices/Content.antt =====
-- The content of a notice: `_single_line_text` of app/notices.py.
use stpt_query.Common.{
  append_assoc, append_nil, ℕ, ◌≤◌, ◌≡◌, ◌∙◌, ap, sym, refl, Bool, true, false, some, List, [], ◌∷◌,
  ◌++◌, All, All-append, length, if◌then◌else◌, arith, Bool-cases, inl, inr,
}
use stpt_query.Notices.{words_from, join_words, has_control, checked, single_line, flush}

-- No character of the word is white space, and there is one.
abbrev Plain : (ℕ → Bool) → List ℕ → Type 0
Plain sp w = All (λ c. sp c ≡ false) w

abbrev IsWord : (ℕ → Bool) → List ℕ → Type 0
IsWord sp [] = ⊥
IsWord sp (c ∷ cs) = Plain sp (c ∷ cs)

module _ (sp : ℕ → Bool) where
  flush-IsWord :
      (cur : List ℕ) (ws : List (List ℕ))
      → Plain sp cur
      → All (IsWord sp) ws
      → All (IsWord sp) (flush cur ws)
  flush-IsWord [] ws h k = k
  flush-IsWord (c ∷ cs) ws h k = (h, k)

  words_from-IsWord : (cur cs : List ℕ) → Plain sp cur → All (IsWord sp) (words_from sp cur cs)
  words_from-IsWord cur [] h = flush-IsWord cur [] h tt
  words_from-IsWord cur (c ∷ cs) h = elim (Bool-cases (sp c)) [
    | inl e ↦
        rw (e, if◌then◌else◌)
          (flush-IsWord cur (words_from sp [] cs) h (words_from-IsWord [] cs tt))
    | inr e ↦
        rw (e, if◌then◌else◌)
          (words_from-IsWord (cur ++ (c ∷ [])) cs
            (All-append (λ d. sp d ≡ false) cur (c ∷ []) h (e, tt)))
  ]

  -- A word is read to its end.
  words_from-append :
      (cur w rest : List ℕ)
      → Plain sp w
      → words_from sp cur (w ++ rest) ≡ words_from sp (cur ++ w) rest
  words_from-append cur [] rest h = ground (arith, append_nil cur)
  words_from-append cur (c ∷ w) rest h =
      ground
        (arith, h.0, words_from-append (cur ++ (c ∷ [])) w rest h.1, append_assoc cur (c ∷ []) w)

  flush_word : (w : List ℕ) (ws : List (List ℕ)) → IsWord sp w → flush w ws ≡ w ∷ ws
  flush_word [] ws h = absurd h
  flush_word (c ∷ cs) ws h = refl

  word-Plain : (w : List ℕ) → IsWord sp w → Plain sp w
  word-Plain [] h = absurd h
  word-Plain (c ∷ cs) h = h

  words_from-join_words :
      (ws : List (List ℕ))
      → sp 32 ≡ true
      → All (IsWord sp) ws
      → words_from sp [] (join_words ws) ≡ ws
  words_from-join_words [] s h = refl
  words_from-join_words (w ∷ []) s h =
      ap (words_from sp []) (sym (append_nil w))
      ∙ words_from-append [] w [] (word-Plain w h.0)
      ∙ flush_word w [] h.0
  words_from-join_words (w ∷ v ∷ ws) s h =
      words_from-append [] w (32 ∷ join_words (v ∷ ws)) (word-Plain w h.0)
      ∙ ground (
        arith,
        s,
        flush_word w (words_from sp [] (join_words (v ∷ ws))) h.0,
        words_from-join_words (v ∷ ws) s h.1,
      )

  checked_same : (t u : List ℕ) → checked t ≡ some u → t ≡ u
  checked_same [] u e = absurd (ground arith)
  checked_same (c ∷ cs) u e = ground arith

  checked_bounds : (t u : List ℕ) → checked t ≡ some u → (length u ≤ 120) × (has_control u ≡ false)
  checked_bounds [] u e = absurd (ground arith)
  checked_bounds (c ∷ cs) u e = rw (← checked_same (c ∷ cs) u e) (ground arith, ground arith)

  -- Where the space is white space, a content that `_single_line_text` has accepted is accepted
  -- again unchanged, has at most 120 characters and no control character.
  pub single_line-single_line :
      (text t : List ℕ)
      → sp 32 ≡ true
      → single_line sp text ≡ some t
      → (single_line sp t ≡ some t) × (length t ≤ 120) × (has_control t ≡ false)
  unfolding single_line
  single_line-single_line text t s e =
      let ws = words_from sp [] text in
      let same = checked_same (join_words ws) t e in
      let back : words_from sp [] t ≡ ws =
        ap (words_from sp []) (sym same)
        ∙ words_from-join_words ws s (words_from-IsWord [] text tt) in
      let bounds = checked_bounds (join_words ws) t e in
      (ap (λ v. checked (join_words v)) back ∙ e, bounds.0, bounds.1)
