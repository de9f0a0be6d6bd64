-- ===== src/Eapol/Key/Data.antt =====
-- The decrypted Key Data field (crates/caw-eapol/src/key.rs, `KeyDataItems` to `rsn_element`).
use caw.Prelude.{
  ℕ, zero, suc, ◌||◌, ◌&&◌, List, [], ◌∷◌, ◌==◌, ltb, if◌then◌else◌, Option, none, some, Result, ok,
  err, length, take, drop, find_map, bit_and,
}
use caw.Eap.Error.{Error, malformed, gtk_missing}

pub record Gtk : Type 0 where
  pub key : List ℕ
  pub index : ℕ

abbrev kde_gtk : ℕ
kde_gtk = 1

abbrev eid_vendor : ℕ
eid_vendor = 221

abbrev eid_rsn : ℕ
eid_rsn = 48

-- A KDE is its OUI's three bytes, its type and its data; an element is its id and all its bytes.
pub data KeyDataItem : Type 0 where
  kde : ℕ → ℕ → ℕ → ℕ → List ℕ → KeyDataItem
  ie : ℕ → List ℕ → KeyDataItem

abbrev vendor_item : ℕ → List ℕ → KeyDataItem
vendor_item len (a ∷ b ∷ c ∷ data_type ∷ rest) = kde a b c data_type rest
vendor_item len payload = ie eid_vendor (eid_vendor ∷ len ∷ payload)

unfoldable pub item_of : ℕ → ℕ → List ℕ → KeyDataItem
item_of id len payload =
    if id == eid_vendor then vendor_item len payload else ie id (id ∷ len ∷ payload)

-- The iterator's items, on fuel.
unfoldable pub items_in : ℕ → List ℕ → List KeyDataItem
items_in fuel [] = []
items_in fuel (id ∷ []) = []
items_in zero (id ∷ len ∷ rest) = []
items_in (suc fuel) (id ∷ len ∷ rest) =
    let more = items_in fuel (drop len rest) in
    if len == 0
    then []
    else if ltb (length rest) len
    then []
    else item_of id len (take len rest) ∷ more

-- Each item takes more than two bytes.
unfoldable pub key_data_items : List ℕ → List KeyDataItem
key_data_items bytes = items_in (length bytes) bytes

abbrev gtk_of : List ℕ → Result Gtk Error
gtk_of (flags ∷ reserved ∷ key) =
    if (length key == 16) || (length key == 32)
    then ok (record { key = key; index = bit_and flags 3 })
    else err malformed
gtk_of _ = err malformed

unfoldable pub first_gtk : List KeyDataItem → Result Gtk Error
first_gtk [] = err gtk_missing
first_gtk (kde a b c data_type payload ∷ more) =
    let others = first_gtk more in
    if a == 0x00 && (b == 0x0f && (c == 0xac && data_type == kde_gtk))
    then gtk_of payload
    else others
first_gtk (ie id raw ∷ more) = first_gtk more

unfoldable pub gtk_kde : List ℕ → Result Gtk Error
gtk_kde key_data = first_gtk (key_data_items key_data)

abbrev rsn_bytes : KeyDataItem → Option (List ℕ)
rsn_bytes (kde a b c data_type payload) = none
rsn_bytes (ie id raw) = if id == eid_rsn then some raw else none

unfoldable pub rsn_element : List ℕ → Option (List ℕ)
rsn_element key_data = find_map rsn_bytes (key_data_items key_data)
