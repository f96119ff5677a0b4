-- ===== src/Journal/Primitive.antt =====
-- _to_json_primitive of executor/journal.py, and the values that it leaves as they are.
use polymarket_trade_executo.Common.{◌≡◌, refl, ap}
use polymarket_trade_executo.Journal.Json.{Json, Items, Fields}

-- `_to_json_primitive`, on a value and on what a list or a dict holds
unfoldable mutual
  pub to_json_primitive : Json → Json
  to_json_primitive (Json.member v) = Json.text v
  to_json_primitive (Json.instance_of vs) = Json.object (primitive_fields vs)
  to_json_primitive (Json.object vs) = Json.object (primitive_fields vs)
  to_json_primitive (Json.array vs) = Json.array (primitive_items vs)
  to_json_primitive (Json.sequence vs) = Json.array (primitive_items vs)
  to_json_primitive Json.null = Json.null
  to_json_primitive (Json.boolean b) = Json.boolean b
  to_json_primitive (Json.number n) = Json.number n
  to_json_primitive (Json.real x) = Json.real x
  to_json_primitive (Json.text s) = Json.text s
  to_json_primitive (Json.other_object s) = Json.text s

  pub primitive_items : Items → Items
  primitive_items Items.empty = Items.empty
  primitive_items (Items.item v vs) = Items.item (to_json_primitive v) (primitive_items vs)

  pub primitive_fields : Fields → Fields
  primitive_fields Fields.end = Fields.end
  primitive_fields (Fields.field k v vs) =
      Fields.field k (to_json_primitive v) (primitive_fields vs)

-- a value that JSON has
unfoldable mutual
  pub IsJson : Json → Type 0
  IsJson (Json.array vs) = AreJson vs
  IsJson (Json.object vs) = HasJson vs
  IsJson (Json.sequence vs) = ⊥
  IsJson (Json.member v) = ⊥
  IsJson (Json.instance_of vs) = ⊥
  IsJson (Json.other_object s) = ⊥
  IsJson Json.null = Unit
  IsJson (Json.boolean b) = Unit
  IsJson (Json.number n) = Unit
  IsJson (Json.real x) = Unit
  IsJson (Json.text s) = Unit

  pub AreJson : Items → Type 0
  AreJson Items.empty = Unit
  AreJson (Items.item v vs) = IsJson v × AreJson vs

  pub HasJson : Fields → Type 0
  HasJson Fields.end = Unit
  HasJson (Fields.field k v vs) = IsJson v × HasJson vs

mutual
  unfolding to_json_primitive IsJson

  primitive-IsJson : (v : Json) → IsJson v → to_json_primitive v ≡ v
  primitive-IsJson (Json.array vs) h = ap Json.array (primitive-AreJson vs h)
  primitive-IsJson (Json.object vs) h = ap Json.object (primitive_fields-HasJson vs h)
  primitive-IsJson (Json.sequence vs) h = absurd h
  primitive-IsJson (Json.member v) h = absurd h
  primitive-IsJson (Json.instance_of vs) h = absurd h
  primitive-IsJson (Json.other_object s) h = absurd h
  primitive-IsJson Json.null h = refl
  primitive-IsJson (Json.boolean b) h = refl
  primitive-IsJson (Json.number n) h = refl
  primitive-IsJson (Json.real x) h = refl
  primitive-IsJson (Json.text s) h = refl

  primitive-AreJson : (vs : Items) → AreJson vs → primitive_items vs ≡ vs
  primitive-AreJson Items.empty h = refl
  primitive-AreJson (Items.item v vs) h = rw (primitive-IsJson v h.0, primitive-AreJson vs h.1) refl

  pub primitive_fields-HasJson : (vs : Fields) → HasJson vs → primitive_fields vs ≡ vs
  primitive_fields-HasJson Fields.end h = refl
  primitive_fields-HasJson (Fields.field k v vs) h =
      rw (primitive-IsJson v h.0, primitive_fields-HasJson vs h.1) refl
