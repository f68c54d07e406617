-- ===== src/Injector/Image.antt =====
-- ParseImage and replaceImageVersion of apis/webhook/injector/utils.go.
use datakit_operator.Common.{Option, none, some, Bool, not, ◌&&◌, ◌||◌, String, ◌==◌, if◌then◌else◌}
use datakit_operator.Common.Text.{◌⁀◌, split_at_last, contains, before_char, from_char, after_char}

-- What stands before the first slash is a registry, with 47 for a slash.
is_domain : String → Bool
unfolding contains
is_domain s = contains s "." || contains s ":" || s == "localhost"

abbrev has_domain : String → Bool
has_domain image = not (from_char 47 image == "") && is_domain (before_char 47 image)

abbrev domain_of : String → String
domain_of image = if has_domain image then before_char 47 image else ""

abbrev remainder_of : String → String
remainder_of image = if has_domain image then after_char 47 image else image

-- The name and the version of what follows the registry, with 58 for a colon.
abbrev name_of_split : String → Option (String × String) → String
name_of_split remainder none = remainder
name_of_split remainder (some (name, version)) = name

abbrev version_of_split : Option (String × String) → String
version_of_split none = "unknown"
version_of_split (some (name, version)) = version

unfoldable pub image_name : String → String
unfolding is_domain split_at_last before_char from_char after_char
image_name image =
    let name = name_of_split (remainder_of image) (split_at_last 58 (remainder_of image)) in
    if domain_of image == "" then name else domain_of image ⁀ "/" ⁀ name

-- The last part of the name
abbrev short_of : String → Option (String × String) → String
short_of name none = name
short_of name (some (before, after)) = after

-- `ParseImage`: the name, the short name and the version
unfoldable pub parse_image : String → String × String × String
unfolding image_name is_domain split_at_last before_char from_char after_char
parse_image image = (
  image_name image,
  short_of (image_name image) (split_at_last 47 (image_name image)),
  version_of_split (split_at_last 58 (remainder_of image)),
)

unfoldable pub replace_image_version : String → String → String
unfolding image_name
replace_image_version image version =
    if version == "" then image else image_name image ⁀ ":" ⁀ version
