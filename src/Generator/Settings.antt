-- ===== src/Generator/Settings.antt =====
-- Reading a settings file in tools/config_generator.py.
use optimer.Prelude.{none, refl, some, ◌↔◌, ◌≡◌}
use optimer.Result.{>>=-eq-ok, Result, ok}
use optimer.Generator.{
  Body, Child, Children, Node, Nodes, body, child, end, last, neither, next, property, read_child,
  read_childs, read_property, read_section, read_settings, section, with_both, with_property,
  with_section,
}

-- the dicts of the file that a tree is read from
unfoldable mutual
  pub document : Node → Child
  document (section name childs) = with_section (body (some name) none (documents childs))
  document (property name values childs) =
      with_property (body (some name) (some values) (documents childs))

  pub documents : Nodes → Children
  documents end = last
  documents (child n ns) = next (document n) (documents ns)

mutual
  unfolding document read_section

  read_child-document : (n : Node) → read_child (document n) ≡ ok n
  read_child-document (section name childs) = rw (read_childs-documents childs)
  read_child-document (property name values childs) = rw (read_childs-documents childs)

  read_childs-documents : (ns : Nodes) → read_childs (documents ns) ≡ ok ns
  read_childs-documents end = refl
  read_childs-documents (child n ns) = rw (read_child-document n, read_childs-documents ns)

-- Every tree is read back from its document, at the root of the file too.
pub read_settings-document : (n : Node) → read_settings (document n) ≡ ok n
unfolding read_settings document
read_settings-document (section name childs) = read_child-document (section name childs)
read_settings-document (property name values childs) =
    read_child-document (property name values childs)

-- the documents that name what the reader asks for; values of a section are not asked for
abbrev mutual
  pub IsComplete : Child → Type 0
  IsComplete neither = ⊥
  IsComplete (with_section b) = HasName b
  IsComplete (with_property b) = HasValues b
  IsComplete (with_both b b') = HasName b

  pub HasName : Body → Type 0
  HasName (body none values childs) = ⊥
  HasName (body (some name) values childs) = AllComplete childs

  pub HasValues : Body → Type 0
  HasValues (body none values childs) = ⊥
  HasValues (body (some name) none childs) = ⊥
  HasValues (body (some name) (some values) childs) = AllComplete childs

  pub AllComplete : Children → Type 0
  AllComplete last = Unit
  AllComplete (next c cs) = IsComplete c × AllComplete cs

abbrev Succeeds : {A : Type 0} → Result A → Type 0
Succeeds {A} r = (a : A) × (r ≡ ok a)

mutual
  unfolding read_section

  IsComplete-read_child : (c : Child) → IsComplete c → Succeeds (read_child c)
  IsComplete-read_child neither h = absurd h
  IsComplete-read_child (with_section b) h = HasName-read_section b h
  IsComplete-read_child (with_property b) h = HasValues-read_property b h
  IsComplete-read_child (with_both b b') h = HasName-read_section b h

  HasName-read_section : (b : Body) → HasName b → Succeeds (read_section b)
  HasName-read_section (body none values childs) h = absurd h
  HasName-read_section (body (some name) values childs) h =
      let (ns, e) = AllComplete-read_childs childs h in (section name ns, rw e)

  HasValues-read_property : (b : Body) → HasValues b → Succeeds (read_property b)
  HasValues-read_property (body none values childs) h = absurd h
  HasValues-read_property (body (some name) none childs) h = absurd h
  HasValues-read_property (body (some name) (some values) childs) h =
      let (ns, e) = AllComplete-read_childs childs h in (property name values ns, rw e)

  AllComplete-read_childs : (cs : Children) → AllComplete cs → Succeeds (read_childs cs)
  AllComplete-read_childs last h = (end, refl)
  AllComplete-read_childs (next c cs) h =
      let (n, e) = IsComplete-read_child c h.0 in
      let (ns, e') = AllComplete-read_childs cs h.1 in (child n ns, rw (e, e'))

mutual
  unfolding read_section

  read_child-IsComplete : (c : Child) (n : Node) → read_child c ≡ ok n → IsComplete c
  read_child-IsComplete neither n h = cc
  read_child-IsComplete (with_section b) n h = read_section-HasName b n h
  read_child-IsComplete (with_property b) n h = read_property-HasValues b n h
  read_child-IsComplete (with_both b b') n h = read_section-HasName b n h

  read_section-HasName : (b : Body) (n : Node) → read_section b ≡ ok n → HasName b
  read_section-HasName (body none values childs) n h = cc
  read_section-HasName (body (some name) values childs) n h =
      let (ns, e, _) = >>=-eq-ok (read_childs childs) _ h in read_childs-AllComplete childs ns e

  read_property-HasValues : (b : Body) (n : Node) → read_property b ≡ ok n → HasValues b
  read_property-HasValues (body none values childs) n h = cc
  read_property-HasValues (body (some name) none childs) n h = cc
  read_property-HasValues (body (some name) (some values) childs) n h =
      let (ns, e, _) = >>=-eq-ok (read_childs childs) _ h in read_childs-AllComplete childs ns e

  read_childs-AllComplete : (cs : Children) (ns : Nodes) → read_childs cs ≡ ok ns → AllComplete cs
  read_childs-AllComplete last ns h = tt
  read_childs-AllComplete (next c cs) ns h =
      let (n, e, k) = >>=-eq-ok (read_child c) _ h in
      let (ns', e', _) = >>=-eq-ok (read_childs cs) _ k in
      (read_child-IsComplete c n e, read_childs-AllComplete cs ns' e')

-- A settings file is read without an error exactly when each of its dicts is a section with a name
-- or a property with a name and values.
pub read_settings_iff : (c : Child) → ((n : Node) × (read_settings c ≡ ok n)) ↔ IsComplete c
unfolding read_settings
read_settings_iff neither = (λ h. cc h.1, λ h. absurd h)
read_settings_iff (with_section b) = (λ h. read_section-HasName b h.0 h.1, HasName-read_section b)
read_settings_iff (with_property b) =
    (λ h. read_property-HasValues b h.0 h.1, HasValues-read_property b)
read_settings_iff (with_both b b') = (λ h. read_section-HasName b h.0 h.1, HasName-read_section b)
