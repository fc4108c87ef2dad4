-- ===== src/Tests/Sums.antt =====
-- The theorem about fingerprints at a concrete input.
use apt_cacher_ng.Base.{◌≡◌, refl, inr, some, ◌∷◌, ◌++◌, arith, codes, pos, length, drop, replicate}
use apt_cacher_ng.Text.{walk_over}
use apt_cacher_ng.Text.Decimal.{print_ℤ}
use apt_cacher_ng.Checksums.{Fingerprint, cs_md5, cs_invalid, digest, get_cs_as_string, set_from}
use apt_cacher_ng.Checksums.RoundTrip.{set_from-get_cs_as_string}

abbrev md5_print : Fingerprint
md5_print = record { size = pos 1234; cs_type = cs_md5; csum = replicate 64 171 }

abbrev unset : Fingerprint
unset = record { size = pos 0; cs_type = cs_invalid; csum = replicate 64 0 }

md5_real : ¬ (cs_md5 ≡ cs_invalid)
md5_real e = cc

set_from-get_cs_as_string_example :
    set_from
      (walk_over (get_cs_as_string md5_print ++ 32 ∷ (print_ℤ (pos 1234) ++ 32 ∷ codes "main/x")))
      cs_invalid
      unset
    ≡ some (record {
      size = pos 1234;
      cs_type = cs_md5;
      csum = digest md5_print ++ drop (length (digest md5_print)) unset.csum;
    })
set_from-get_cs_as_string_example =
    set_from-get_cs_as_string md5_print unset cs_invalid 1234 (codes "main/x") md5_real (inr refl)
      refl refl
      (
        omega arith,
        (
          omega arith,
          (
            omega arith,
            (
              omega arith,
              (
                omega arith,
                (
                  omega arith,
                  (
                    omega arith,
                    (
                      omega arith,
                      (
                        omega arith,
                        (
                          omega arith,
                          (
                            omega arith,
                            (
                              omega arith,
                              (omega arith, (omega arith, (omega arith, (omega arith, tt)))),
                            ),
                          ),
                        ),
                      ),
                    ),
                  ),
                ),
              ),
            ),
          ),
        ),
      )
