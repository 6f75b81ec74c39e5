-- ===== src/Controller/Fom/Accounts/Neutral.antt =====
-- The keys of the statistics that do not count how an evaluation ended.
use memory_mutation_testing.Base.{refl}
use memory_mutation_testing.Controller.Fom.Accounts.{IsNeutral}

pub killed_sd-IsNeutral : IsNeutral "killed_SD"
killed_sd-IsNeutral = record {
  generated = refl;
  failed = refl;
  killed = refl;
  equivalent = refl;
  strong = refl;
  weak = refl;
}

pub killed_wd-IsNeutral : IsNeutral "killed_WD"
killed_wd-IsNeutral = record {
  generated = refl;
  failed = refl;
  killed = refl;
  equivalent = refl;
  strong = refl;
  weak = refl;
}

pub killed_wd_ve-IsNeutral : IsNeutral "killed_WD_VE"
killed_wd_ve-IsNeutral = record {
  generated = refl;
  failed = refl;
  killed = refl;
  equivalent = refl;
  strong = refl;
  weak = refl;
}

pub killed_wd_cfd-IsNeutral : IsNeutral "killed_WD_CFD"
killed_wd_cfd-IsNeutral = record {
  generated = refl;
  failed = refl;
  killed = refl;
  equivalent = refl;
  strong = refl;
  weak = refl;
}

pub survived_wd_ve-IsNeutral : IsNeutral "survived_WD_VE"
survived_wd_ve-IsNeutral = record {
  generated = refl;
  failed = refl;
  killed = refl;
  equivalent = refl;
  strong = refl;
  weak = refl;
}

pub survived_wd_cfd-IsNeutral : IsNeutral "survived_WD_CFD"
survived_wd_cfd-IsNeutral = record {
  generated = refl;
  failed = refl;
  killed = refl;
  equivalent = refl;
  strong = refl;
  weak = refl;
}

pub valgrind_errors_count-IsNeutral : IsNeutral "valgrind_errors_count"
valgrind_errors_count-IsNeutral = record {
  generated = refl;
  failed = refl;
  killed = refl;
  equivalent = refl;
  strong = refl;
  weak = refl;
}

pub cfg_deviation_raw-IsNeutral : IsNeutral "cfg_deviation_raw"
cfg_deviation_raw-IsNeutral = record {
  generated = refl;
  failed = refl;
  killed = refl;
  equivalent = refl;
  strong = refl;
  weak = refl;
}

pub damage_raw-IsNeutral : IsNeutral "damage_raw"
damage_raw-IsNeutral = record {
  generated = refl;
  failed = refl;
  killed = refl;
  equivalent = refl;
  strong = refl;
  weak = refl;
}
