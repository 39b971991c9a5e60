-- ===== src/Mapping/Insert.antt =====
-- The functions `be_map_insert_…` of components/berry/berry_mapping/src/be_mapping_utils.c, on the
-- stack of Events. The maps and lists of the interpreter, with the state `M`, and its reals, the type
-- `R`, are a parameter.
use esp32_berry_lang.Base.{Bool, Bytes, [], ◌∷◌, if◌then◌else◌}
use esp32_berry_lang.Base.Int.{ℤ, pos}
use esp32_berry_lang.Events.{Value, bool, int, string, Stack, push, be_pop, value_at}

-- `be_data_insert` of a key and a value into a map; `be_newobject` of a list, which gives the
-- instance and the list in it; `be_data_push` onto that; a real as a value, and `isnan`.
pub record Maps (M R : Type 0) : Type 0 where
  pub data_insert : Value → Value → Value → M → M
  pub new_list : M → Value × Value × M
  pub data_push : Value → Value → M → M
  pub real : R → Value
  pub isnan : R → Bool

module _ {M R : Type 0} (maps : Maps M R) where
  -- `be_data_insert(vm, -3)` and the pop of the key and the value
  unfoldable pub insert_top : Stack → M → Stack × M
  insert_top s m = (
    be_pop (pos 2) s,
    maps.data_insert (value_at 2 s.values) (value_at 1 s.values) (value_at 0 s.values) m,
  )

  unfoldable pub be_map_insert_int : Bytes → ℤ → Stack → M → Stack × M
  be_map_insert_int key value s m = insert_top (push (int value) (push (string key) s)) m

  unfoldable pub be_map_insert_bool : Bytes → Bool → Stack → M → Stack × M
  be_map_insert_bool key value s m = insert_top (push (bool value) (push (string key) s)) m

  -- A value that is no number is not inserted.
  unfoldable pub be_map_insert_real : Bytes → R → Stack → M → Stack × M
  be_map_insert_real key value s m =
      let inserted = insert_top (push (maps.real value) (push (string key) s)) m in
      if maps.isnan value then (s, m) else inserted

  unfoldable pub be_map_insert_str : Bytes → Bytes → Stack → M → Stack × M
  be_map_insert_str key value s m = insert_top (push (string value) (push (string key) s)) m

  -- The loop of `be_map_insert_list_uint8`, with the list on the top
  unfoldable pub push_items : Bytes → Stack → M → Stack × M
  push_items [] s m = (s, m)
  push_items (b ∷ value) s m =
      let s' = push (int (pos b)) s in
      let m' = maps.data_push (value_at 1 s'.values) (value_at 0 s'.values) m in
      push_items value (be_pop (pos 1) s') m'

  unfoldable pub be_map_insert_list_uint8 : Bytes → Bytes → Stack → M → Stack × M
  be_map_insert_list_uint8 key value s m =
      let (instance, data_list, m1) = maps.new_list m in
      let (s', m2) = push_items value (push data_list (push instance (push (string key) s))) m1 in
      insert_top (be_pop (pos 1) s') m2
