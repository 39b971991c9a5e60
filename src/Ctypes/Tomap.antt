-- ===== src/Ctypes/Tomap.antt =====
-- What a structure answers as a whole: `be_ctypes_tomap`, and the names it does not have.
use esp32_berry_lang.Base.{
  ℕ, Bytes, List, [], ◌∷◌, ◌++◌, some, length, get_elem?, get_elem?-append_here, append_assoc, ◌≡◌,
  ◌≢◌, refl, sym, ap, ◌∙◌,
}
use esp32_berry_lang.Base.Int.{ℤ}
use esp32_berry_lang.BinSearch.Answer.{IsSorted}
use esp32_berry_lang.Ctypes.{
  Item, Structure, Value, undefined, int, done, attribute_error, Interpreter, read_item, read_found,
  member, from_instance, set_found, set_value, setmember, add_entry, add_items, tomap,
}
use esp32_berry_lang.Ctypes.Lookup.{names, lookup_missing}
use esp32_berry_lang.Ctypes.Members.{member_own}

module _ {M : Type 0} (vm : Interpreter M) (def : Structure) (m : M) where
  -- The entries give each item's name the value of that item, in their order.
  pub data Entries : List Item → List (Bytes × Value) → Type 0 where
    no_more : Entries [] []
    entry :
        (item : Item) (v : Value) {items : List Item} {es : List (Bytes × Value)}
        → read_item vm def item m ≡ done v
        → Entries items es
        → Entries (item ∷ items) ((item.name, v) ∷ es)

  add_items-Entries :
      (front items : List Item) (es : List (Bytes × Value))
      → IsSorted some (names def)
      → def.items ≡ front ++ items
      → Entries items es
      → add_items vm def items m ≡ done es
  unfolding add_items add_entry
  add_items-Entries front [] [] sorted h no_more = refl
  add_items-Entries front _ _ sorted h (entry item v {items = items} {es = es'} r rest) = simp (
    member_own vm def (length front) item m sorted
        (ap (λ l. get_elem? l (length front)) h ∙ get_elem?-append_here front item items),
    r,
    add_items-Entries (front ++ (item ∷ [])) items es' sorted
        (h ∙ sym (append_assoc front (item ∷ []) items)) rest,
  )

  -- Let the names of the structure be sorted and every member have a value that can be read. Then
  -- `tomap` makes the map of each member's name to that member's value.
  pub tomap-Entries :
      (es : List (Bytes × Value))
      → IsSorted some (names def)
      → Entries def.items es
      → tomap vm def m ≡ done es
  unfolding tomap
  tomap-Entries es sorted h = add_items-Entries [] def.items es sorted refl h

  -- Let the names of the structure be sorted and the name be none of them. Then reading it gives the
  -- module `undefined`, and setting it to an integer raises `attribute_error`.
  member_unknown :
      (name : Bytes) (n : ℤ)
      → IsSorted some (names def)
      → ((i : ℕ) → get_elem? (names def) i ≢ some name)
      → (member vm def name m ≡ done undefined)
        × (setmember vm def name (int n) m ≡ attribute_error)
  unfolding member read_found setmember set_value set_found from_instance
  member_unknown name n sorted h =
      (simp (lookup_missing def name sorted h), simp (lookup_missing def name sorted h))
