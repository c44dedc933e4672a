-- ===== src/Lint/Nesting/Braces.antt =====
-- The tokens `{ } ;` and `)` on the stack of blocks in tools/cpplint.py.
use optimer.Prelude.{
  List, [], append_assoc, if◌then◌else◌, inl, inr, refl, true, ℕ, ◌++◌, ◌∷◌, ◌≡◌, ◌⊎◌,
}
use optimer.Regex.{matches}
use optimer.Text.{Text}
use optimer.Lint.Event.{Event}
use optimer.Lint.Cleanse.{CleansedLines}
use optimer.Lint.Nesting.{
  BlockInfo, block_asm, check_end, check_end_kind, new_block, no_asm, plain, top_seen,
}
use optimer.Lint.Nesting.Update.{apply_token, re_match_asm}

-- Tokens with balanced braces.
pub data IsBraced : List ℕ → Type 0 where
  done : IsBraced []
  separator : {c : ℕ} {ts : List ℕ} → (c ≡ b';') ⊎ (c ≡ b')') → IsBraced ts → IsBraced (c ∷ ts)
  braces :
      {o c : ℕ} {ts us : List ℕ}
      → o ≡ b'{'
      → c ≡ b'}'
      → IsBraced ts
      → IsBraced us
      → IsBraced (o ∷ ts ++ c ∷ us)

module _ (filename : Text) (clean : CleansedLines) (linenum : ℕ) (line : Text) where
  -- the tokens of a line, one after the other
  unfoldable pub apply_tokens : List ℕ → List BlockInfo → List BlockInfo × List Event
  apply_tokens [] stack = (stack, [])
  apply_tokens (t ∷ ts) stack =
      let (stack', events) = apply_token filename clean linenum line t stack in
      let (stack'', more) = apply_tokens ts stack' in (stack'', events ++ more)

  apply_tokens-append :
      (ts us : List ℕ) (stack : List BlockInfo)
      → apply_tokens (ts ++ us) stack ≡ (
        (apply_tokens us (apply_tokens ts stack).0).0,
        (apply_tokens ts stack).1 ++ (apply_tokens us (apply_tokens ts stack).0).1,
      )
  unfolding apply_tokens
  apply_tokens-append [] us stack = refl
  apply_tokens-append (t ∷ ts) us stack =
      let (mid, events) = apply_token filename clean linenum line t stack in
      rw (apply_tokens-append ts us mid, append_assoc)

  abbrev fresh : BlockInfo
  fresh = record (new_block true plain) {
    inline_asm = if matches re_match_asm line then block_asm else no_asm;
  }

  at_open :
      (o : ℕ) (stack : List BlockInfo)
      → o ≡ b'{'
      → top_seen stack ≡ true
      → (b : BlockInfo) × (apply_token filename clean linenum line o stack ≡ (b ∷ stack, []))
        × (b.seen_open_brace ≡ true)
        × (b.kind ≡ plain)
  unfolding apply_token top_seen
  at_open o [] e h = (fresh, rw e refl, refl, refl)
  at_open o (b ∷ bs) e h = (fresh, rw (e, h) refl, refl, refl)

  at_separator :
      (c : ℕ) (stack : List BlockInfo)
      → (c ≡ b';') ⊎ (c ≡ b')')
      → top_seen stack ≡ true
      → apply_token filename clean linenum line c stack ≡ (stack, [])
  unfolding apply_token top_seen
  at_separator c [] (inl e) h = rw e refl
  at_separator c [] (inr e) h = rw e refl
  at_separator c (b ∷ bs) (inl e) h = rw (e, h) refl
  at_separator c (b ∷ bs) (inr e) h = rw (e, h) refl

  at_close :
      (c : ℕ) (b : BlockInfo) (stack : List BlockInfo)
      → c ≡ b'}'
      → b.kind ≡ plain
      → apply_token filename clean linenum line c (b ∷ stack) ≡ (stack, [])
  unfolding apply_token check_end check_end_kind
  at_close c b stack e k = rw (e, k) refl

  -- Where the innermost block has its opening brace, tokens with balanced braces leave the stack of
  -- blocks as it was and report nothing.
  pub apply_tokens-IsBraced :
      {ts : List ℕ}
      → IsBraced ts
      → (stack : List BlockInfo) → top_seen stack ≡ true
      → apply_tokens ts stack ≡ (stack, [])
  unfolding apply_tokens
  apply_tokens-IsBraced done stack h = refl
  apply_tokens-IsBraced (separator e d) stack h =
      rw (at_separator _ stack e h) (rw (apply_tokens-IsBraced d stack h))
  apply_tokens-IsBraced (braces {c = c} {ts = ts} {us = us} eo ec d d') stack h =
      let (b, at, seen, k) = at_open _ stack eo h in
      rw
        (
          at,
          apply_tokens-append ts (c ∷ us) (b ∷ stack),
          apply_tokens-IsBraced d (b ∷ stack) (unfold top_seen in seen),
          at_close c b stack ec k,
        )
        (rw (apply_tokens-IsBraced d' stack h))
