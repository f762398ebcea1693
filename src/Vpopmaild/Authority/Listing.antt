-- ===== src/Vpopmaild/Authority/Listing.antt =====
-- vpopmaild.c: `list_alias` makes allowed calls only.
use vpopmail.Common.{
  ◌≡◌, ◌⊎◌, ◌∙◌, inl, inr, ap, sym, refl, true, List, [], ◌∷◌, Option, none, some, Bytes, equal_iff,
  take, arith,
}
use vpopmail.Email.{lowerit, split_at}
use vpopmail.Vpopmaild.{
  Call, Library, Session, is_sa, is_qa, is_admin, in_domain, ok_more, Connection, noted, send,
}
use vpopmail.Vpopmaild.Aliases.{list_alias, list_by, list_targets}
use vpopmail.Vpopmaild.Authority.{
  allowed, Kept, Good, good, require-Good, present-Good, on_email-Good, send_lines-Kept, noted-Kept,
}

-- There is no `@` in the domain of the session. `parse_email` sees to that, if no default domain has one.
abbrev pub HasNoAt : Session → Type 0
HasNoAt s = (split_at b'@' (lowerit (take 255 s.the_domain))).back ≡ none

pub who_lists :
    (s : Session) (word : Bytes)
    → is_admin s ≡ true
    → in_domain s word ≡ true
    → (is_sa s ≡ true) ⊎ ((is_qa s ≡ true) × (s.the_domain ≡ word))
unfolding in_domain
who_lists s word admin inside = ground (arith, equal_iff s.the_domain word)

abbrev at_of : Bytes → Option Bytes
at_of word = (split_at b'@' (lowerit (take 255 word))).back

module _ (L : Library) (s : Session) where
  list_targets-Good :
      (alias domain : Bytes) (ts : List Bytes) (c : Connection L)
      → Kept L s c
      → Good L s (list_targets L alias domain ts c)
  list_targets-Good alias domain [] c h = good L s _ c h
  list_targets-Good alias domain (t ∷ ts) c h =
      good L s _ _ (send_lines-Kept L s _ (send L ok_more c) (record { all = h.all }))

  list_by-Good :
      (o : Option Bytes) (word alias domain : Bytes) (c : Connection L)
      → at_of word ≡ o
      → HasNoAt s
      → (is_sa s ≡ true) ⊎ ((is_qa s ≡ true) × (s.the_domain ≡ word))
      → Kept L s c
      → Good L s (list_by L o (lowerit (take 255 word)) alias domain c)
  list_by-Good none word alias domain c e n who h =
      let a : allowed s (Call.valias_select_all (lowerit (take 255 word))) ≡ true = elim who [
        | inl sa ↦ ground arith
        | inr (qa, same) ↦
            rw same (ground (arith, equal_iff (lowerit (take 255 word)) (lowerit (take 255 word))))
      ] in
      good L s _ _ (
        send_lines-Kept L s _
          (send L ok_more (noted L (Call.valias_select_all (lowerit (take 255 word))) c))
          (record { all = (a, h.all) }))
  list_by-Good (some t) word alias domain c e n (inl sa) h =
      list_targets-Good alias domain _ _
        (noted-Kept L s (Call.valias_select alias domain) c h (ground arith))
  list_by-Good (some t) word alias domain c e n (inr (qa, same)) h =
      let clash : none ≡ some t = sym n ∙ (ap at_of same ∙ e) in absurd (ground arith)

  pub list_alias-Good :
      (rest : Bytes) (c : Connection L) → HasNoAt s → Kept L s c → Good L s (list_alias L s rest c)
  unfolding list_alias
  list_alias-Good rest c n h = require-Good L s _ _ c _ h (λ admin.
      present-Good L s _ _ c _ h (λ (word, _) _. on_email-Good L s _ _ _ c _ h (λ alias domain.
        require-Good L s _ _ c _ h
          (λ inside. list_by-Good _ word alias domain c refl n (who_lists s word admin inside) h))))
