-- ===== src/Db/Types.antt =====
-- server/db/db.go: the errors and the interface of the server's key value store. A nil slice is
-- `none`. The errors that an implementation or a callback passes on are `other`.
use stor.Base.{ℕ, ◌+◌, Bytes, Option, List, [], ◌∷◌, Result, ok, err, panic, Bool}

pub data Error : Type 0 where
  not_found nil_key closed_item conflict : Error
  other : ℕ → Error

abbrev pub Slice : Type 0
Slice = Option Bytes

-- What a callback of ListItems is given.
pub record Item : Type 0 where
  pub key : Bytes
  pub value : Bytes

-- A callback changes what it captures, a value of `S`, and may stop the listing by an error.
abbrev pub Callback : Type 0 → Type 0
Callback S = Item → S → Result Error (Unit {0}) × S

-- The loop over the items: it ends with the first error of the callback.
unfoldable pub visit : {S : Type 0} → Callback S → List Item → S → Result Error (Unit {0}) × S
visit cb [] s = (ok tt, s)
visit cb (item ∷ items) s =
    let (r, s') = cb item s in
    elim r [ ok _ ↦ visit cb items s' | err e ↦ (err e, s') | panic ↦ (panic, s') ]

-- The operations of the interface DB over a state of its own. `items` are those that ListItems
-- visits for a prefix, in the order in which it does.
pub record Database : Type 1 where
  pub State : Type 0
  pub set : Slice → Bytes → State → Result Error (Unit {0}) × State
  pub set_scoped : Slice → Bytes → State → Result Error Bytes × State
  pub get : Slice → State → Result Error Bytes
  pub exists : Slice → State → Result Error Bool
  pub delete : Slice → State → Result Error (Unit {0}) × State
  pub list_items : {S : Type 0} → Callback S → Slice → State → S → Result Error (Unit {0}) × S

abbrev counting : Callback ℕ
counting item count = (ok tt, count + 1)

-- CountKeys: the count so far is returned beside an error too.
unfoldable pub count_keys : (D : Database) → Slice → D.State → Result Error (Unit {0}) × ℕ
count_keys D prefix s = D.list_items counting prefix s 0
