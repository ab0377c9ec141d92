-- ===== src/Json.antt =====
-- The JSON values of JavaScript, and what the code does with them. A number is
-- the text that stands for it, since the code never computes with one: the literal that `JSON.parse`
-- read, or, in a value to be written, what `JSON.stringify` writes for the number. An object is its own members in order.
pub mod Quote
pub mod Print
pub mod Scan
pub mod Parse
pub mod White
pub mod Tokens
pub mod Canonical
pub mod Steps
pub mod RoundTrip
pub mod Progress
pub mod Total
pub mod Written
pub mod Reads
pub mod Typed
pub mod Numbers
use kxco_post_quantum.Prelude.{
  Bool, true, false, ◌||◌, Option, none, some, if◌then◌else◌, Text, text_eq,
}

mutual
  pub data Json : Type 0 where
    null : Json
    boolean : Bool → Json
    number : Text → Json
    string : Text → Json
    array : Elements → Json
    object : Members → Json

  pub data Elements : Type 0 where
    end_elements : Elements
    element : Json → Elements → Elements

  pub data Members : Type 0 where
    end_members : Members
    member : Text → Json → Members → Members

-- `o.k`, `none` where it is undefined.
unfoldable pub get_member : Text → Members → Option Json
get_member k end_members = none
get_member k (member k' v ms) = if text_eq k' k then some v else get_member k ms

-- `Object.hasOwn(o, k)`
unfoldable pub has_own : Text → Members → Bool
has_own k end_members = false
has_own k (member k' v ms) = text_eq k' k || has_own k ms

unfoldable pub append_members : Members → Members → Members
append_members end_members ns = ns
append_members (member k v ms) ns = member k v (append_members ms ns)
