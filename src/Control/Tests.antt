-- ===== src/Control/Tests.antt =====
-- A client asks for the last ten seconds.
use ws_audiod.Base.{◌≡◌, refl, arith, codes, pos, negsuc, [], Text}
use ws_audiod.Config.Number.Decimal.{decimal, print}
use ws_audiod.Control.{parse_command, clip}
use ws_audiod.Control.Printed.{print_int, Means, parse_command-Means}

abbrev line : Text
line = codes "clip -10 0 wav"

line-Means : Means line (record {
  type = clip;
  int_value = negsuc 9;
  int_value2 = pos 0;
  key = codes "wav";
  value = [];
})
unfolding print_int decimal print
line-Means =
    Means.a_clip (codes "clip") (negsuc 9) (pos 0) (codes "wav") (refl, (refl, (refl, (refl, tt))))
      refl (omega arith) (omega arith) (refl, (refl, (refl, tt))) refl

parse_command-Means_example : parse_command line ≡ record {
  type = clip;
  int_value = negsuc 9;
  int_value2 = pos 0;
  key = codes "wav";
  value = [];
}
parse_command-Means_example =
    parse_command-Means line
      (record {
        type = clip;
        int_value = negsuc 9;
        int_value2 = pos 0;
        key = codes "wav";
        value = [];
      })
      line-Means
