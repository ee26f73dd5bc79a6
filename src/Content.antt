-- ===== src/Content.antt =====
-- crates/cycbox-sdk/src/message/content.rs: styled pieces of text for display.
use cycbox.Base.{ℕ, List, Option, none, Bool, true, false}
use cycbox.Base.Text.{Text}

pub data ContentType : Type 0 where
  plain_text rich_text : ContentType

pub data Color : Type 0 where
  primary on_primary primary_container on_primary_container : Color
  secondary on_secondary secondary_container on_secondary_container : Color
  tertiary on_tertiary tertiary_container on_tertiary_container : Color
  error on_error error_container on_error_container : Color
  surface on_surface surface_variant on_surface_variant surface_tint : Color
  surface_container surface_container_high surface_container_highest : Color
  surface_container_low surface_container_lowest : Color
  background on_background : Color
  outline outline_variant : Color
  transparent : Color

pub record Decoration : Type 0 where
  pub bold : Bool
  pub italic : Bool
  pub underline : Bool
  pub strikethrough : Bool
  pub color : Color
  pub background : Color

abbrev pub default_decoration : Decoration
default_decoration = record {
  bold = false;
  italic = false;
  underline = false;
  strikethrough = false;
  color = on_surface;
  background = transparent;
}

pub record Content : Type 0 where
  pub content_type : ContentType
  pub decoration : Decoration
  pub payload : List ℕ
  pub label : Option Text

unfoldable pub styled : List ℕ → Color → Bool → Option Text → Content
styled bytes c heavy l = record {
  content_type = rich_text;
  decoration = record default_decoration { bold = heavy; color = c };
  payload = bytes;
  label = l;
}

unfoldable pub plain : List ℕ → Content
plain bytes = record {
  content_type = plain_text;
  decoration = default_decoration;
  payload = bytes;
  label = none;
}

-- The semantic colours. `Content::data` is spelled `data_bytes`, since `data` is a keyword here.
unfoldable pub data_bytes : List ℕ → Option Text → Content
unfolding styled
data_bytes bytes l = styled bytes on_surface false l

unfoldable pub address : List ℕ → Option Text → Content
unfolding styled
address bytes l = styled bytes primary false l

unfoldable pub separator : List ℕ → Content
unfolding styled
separator bytes = styled bytes outline false none

unfoldable pub padding : List ℕ → Content
unfolding styled
padding bytes = styled bytes outline_variant false none

unfoldable pub header : List ℕ → Option Text → Content
unfolding styled
header bytes l = styled bytes on_surface_variant false l

unfoldable pub length_field : List ℕ → Option Text → Content
unfolding styled
length_field bytes l = styled bytes on_surface_variant false l

unfoldable pub checksum : List ℕ → Option Text → Content
unfolding styled
checksum bytes l = styled bytes tertiary false l

unfoldable pub highlight : List ℕ → Option Text → Content
unfolding styled
highlight bytes l = styled bytes error true l

unfoldable pub command : List ℕ → Option Text → Content
unfolding styled
command bytes l = styled bytes primary false l

unfoldable pub checksum_invalid : List ℕ → Option Text → Content
unfolding styled
checksum_invalid bytes l = styled bytes error false l

unfoldable pub error_indicator : List ℕ → Option Text → Content
unfolding styled
error_indicator bytes l = styled bytes error false l

unfoldable pub status_ok : List ℕ → Option Text → Content
unfolding styled
status_ok bytes l = styled bytes tertiary false l
