-- ===== src/DefinitionsMap/Update.antt =====
-- `Definitions::update`: what the definitions of a block hold after a node.
use cape_implementation.Prelude.{
  ℕ, ◌≡◌, ◌∙◌, sym, ap, subst, refl, Bool, Bool-cases, inl, inr, true, false, ◌||◌, ◌&&◌, List, [],
  ◌∷◌, arith, ◌==◌, if◌then◌else◌, All,
}
use cape_implementation.DefSite.{DefSite}
use cape_implementation.DefinitionsMap.{
  write_site, Definitions, Annotations, update_define, update_defines, update_overwrites,
  update_definitions, add_unknown_read, uses_unknown,
}
use cape_implementation.DefinitionsMap.Held.{
  held, IsStored, Fits, site_has, held-write_site, write_site-IsStored,
}

-- Whether one of the sites has the byte of the object.
abbrev pub some_has : List DefSite → ℕ → ℕ → Bool
some_has [] t b = false
some_has (s ∷ ss) t b = site_has s t b || some_has ss t b

module _ (unknown_memory n : ℕ) where
  -- What a definition of known memory leaves.
  record Defined (ss : List DefSite) (d after : Definitions) : Type 0 where
    defined :
        (t b x : ℕ)
        → held after.definitions t b x ≡ ((some_has ss t b && n == x) || held d.definitions t b x)
    same_kills : after.kills ≡ d.kills
    same_writes : after.unknown_writes ≡ d.unknown_writes
    stored : IsStored after.definitions

  update_defines-Defined :
      (ss : List DefSite) (d : Definitions)
      → All Fits ss
      → All (λ s. (s.target == unknown_memory) ≡ false) ss
      → IsStored d.definitions
      → Defined ss d (update_defines unknown_memory ss n d)
  unfolding update_defines update_define
  update_defines-Defined [] d f k st = record {
    defined = λ t b x. refl;
    same_kills = refl;
    same_writes = refl;
    stored = st;
  }
  update_defines-Defined (s ∷ ss) d f k st =
      let next = record d { definitions = (write_site false s n d.definitions).0 } in
      let rest =
        update_defines-Defined ss next f.1 k.1
          (write_site-IsStored false s n d.definitions f.0 st) in
      rw (k.0) (record {
        defined = λ t b x.
            ground
              (arith, rest.defined t b x, held-write_site false s n d.definitions f.0 st t b x);
        same_kills = rest.same_kills;
        same_writes = rest.same_writes;
        stored = rest.stored;
      })

  record Overwritten (ss : List DefSite) (d after : Definitions) : Type 0 where
    overwritten :
        (t b x : ℕ)
        → held after.definitions t b x
          ≡ (if some_has ss t b then n == x else held d.definitions t b x)
    killed :
        (t b x : ℕ) → held after.kills t b x ≡ ((some_has ss t b && n == x) || held d.kills t b x)
    left_writes : after.unknown_writes ≡ d.unknown_writes
    both_stored : IsStored after.definitions × IsStored after.kills

  update_overwrites-Overwritten :
      (ss : List DefSite) (d : Definitions)
      → All Fits ss
      → IsStored d.definitions
      → IsStored d.kills
      → Overwritten ss d (update_overwrites unknown_memory ss n d)
  unfolding update_overwrites
  update_overwrites-Overwritten [] d f st kt = record {
    overwritten = λ t b x. refl;
    killed = λ t b x. refl;
    left_writes = refl;
    both_stored = (st, kt);
  }
  update_overwrites-Overwritten (s ∷ ss) d f st kt =
      let next = record d {
        kills = (write_site false s n d.kills).0;
        definitions = (write_site true s n d.definitions).0;
      } in
      let rest =
        update_overwrites-Overwritten ss next f.1
          (write_site-IsStored true s n d.definitions f.0 st)
          (write_site-IsStored false s n d.kills f.0 kt) in
      record {
        overwritten = λ t b x.
            ground
              (arith, rest.overwritten t b x, held-write_site true s n d.definitions f.0 st t b x);
        killed = λ t b x.
            ground (arith, rest.killed t b x, held-write_site false s n d.kills f.0 kt t b x);
        left_writes = rest.left_writes;
        both_stored = rest.both_stored;
      }

  -- What a node that defines no unknown memory leaves.
  pub record IsUpdated (a : Annotations) (d after : Definitions) : Type 0 where
    pub definitions_hold :
        (t b x : ℕ)
        → held after.definitions t b x ≡ (
            if some_has a.overwrites t b
            then n == x
            else (some_has a.defines t b && n == x) || held d.definitions t b x)
    pub kills_hold :
        (t b x : ℕ)
        → held after.kills t b x ≡ ((some_has a.overwrites t b && n == x) || held d.kills t b x)
    pub keeps_writes : after.unknown_writes ≡ d.unknown_writes
    pub keeps_stored : IsStored after.definitions × IsStored after.kills

  -- After the update with a node that defines no unknown memory, where all sites fit and the mappings are
  -- valid: at a byte that the node overwrites the definitions hold the node alone, at a byte that it
  -- defines they hold it beside the old ones, at each other byte the old ones; the kills have gained
  -- the node at the bytes that it overwrites, the unknown writes are the same, and the mappings are valid.
  pub update_definitions-IsUpdated :
      (a : Annotations) (d : Definitions)
      → All Fits a.defines
      → All Fits a.overwrites
      → All (λ s. (s.target == unknown_memory) ≡ false) a.defines
      → IsStored d.definitions
      → IsStored d.kills
      → IsUpdated a d (update_definitions unknown_memory a n d)
  unfolding update_definitions add_unknown_read
  update_definitions-IsUpdated a d f g k st kt =
      let defs = update_defines-Defined a.defines d f k st in
      let middle = update_defines unknown_memory a.defines n d in
      let overs =
        update_overwrites-Overwritten a.overwrites middle g defs.stored
          (subst IsStored (sym defs.same_kills) kt) in
      let kept : (t b x : ℕ) → held middle.kills t b x ≡ held d.kills t b x =
        λ t b x. ap (λ z. held z t b x) defs.same_kills in
      let at_end : IsUpdated a d (update_overwrites unknown_memory a.overwrites n middle) = record {
        definitions_hold = λ t b x. ground (arith, overs.overwritten t b x, defs.defined t b x);
        kills_hold = λ t b x. ground (arith, overs.killed t b x, kept t b x);
        keeps_writes = overs.left_writes ∙ defs.same_writes;
        keeps_stored = overs.both_stored;
      } in
      elim (Bool-cases (uses_unknown unknown_memory a.uses)) [
        | inl uses ↦ rw uses (record {
          definitions_hold = at_end.definitions_hold;
          kills_hold = at_end.kills_hold;
          keeps_writes = at_end.keeps_writes;
          keeps_stored = at_end.keeps_stored;
        })
        | inr none_used ↦ rw none_used at_end
      ]
