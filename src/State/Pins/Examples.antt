-- ===== src/State/Pins/Examples.antt =====
-- One pin, and the theorem on its file.
use shrine.Prelude.{
  [], dec_str, eq_int, eq_pair, eq_str, has_prefix, lookup, mem, pos, refl, some, ◌∷◌, ◌≡◌,
}
use shrine.State.Deployments.Words.{is_plain}
use shrine.State.Pins.{Clock, ImagePin, Pins, contains, load_pins, print_pins}
use shrine.State.Pins.Lines.{IsStorable, IsStored, load_pins-print_pins}

abbrev epoch : Clock
epoch = record { parse = λ s. some (pos 0); format = λ t. "1970-01-01T00:00:00Z" }

abbrev blog_pin : ImagePin
blog_pin = record {
  kind = "Application";
  name = "blog";
  requested = "ghcr.io/me/blog:latest";
  pinned = "ghcr.io/me/blog@sha256:12";
  pinned_at = pos 0;
}

abbrev pins : Pins
pins = ("blog", blog_pin) ∷ []

blog-IsStorable : IsStorable epoch blog_pin
unfolding is_plain dec_str contains has_prefix
blog-IsStorable = record {
  kind = (refl, refl);
  name = (refl, refl);
  requested = (refl, refl);
  pinned = (refl, refl);
  digest = refl;
  time = (refl, refl);
  clocked = refl;
}

pins-IsStored : IsStored epoch pins
unfolding mem
pins-IsStored = record { once = (refl, tt); storable = ((refl, blog-IsStorable), tt) }

load_pins-print_pins_example :
    lookup "blog" (load_pins epoch (some (print_pins epoch pins))) ≡ lookup "blog" pins
load_pins-print_pins_example = load_pins-print_pins epoch pins pins-IsStored "blog"
