-- ===== src/Links/Tests.antt =====
-- Two links to one file.
use freeos.Prelude.{refl, true, List, [], ◌∷◌, some, arith}
use freeos.Prelude.Paths.{Str, same, get}
use freeos.Links.{FileSystem, State, create_link}
use freeos.Links.Counts.{count, IsCounted, create_link-IsCounted}

-- The disk is the list of the files that were removed; every path exists.
abbrev files : FileSystem
files = record { Disk = List Str; exists = λ d p. true; remove_file = λ d p. (some tt, p ∷ d) }

-- `/d/`, `/a` and `/b`
abbrev target : Str
target = 47 ∷ 100 ∷ 47 ∷ []

abbrev a_path : Str
a_path = 47 ∷ 97 ∷ []

abbrev b_path : Str
b_path = 47 ∷ 98 ∷ []

-- `/a` is the only link, or `/b` is one too.
abbrev one_link : State files
one_link = record {
  inner = record { links = (a_path, target) ∷ []; ref_counts = (target, 1) ∷ [] };
  disk = [];
}

abbrev two_links : State files
two_links = record {
  inner = record {
    links = (a_path, target) ∷ (b_path, target) ∷ [];
    ref_counts = (target, 2) ∷ [];
  };
  disk = [];
}

one_link-IsCounted : IsCounted one_link.inner
unfolding count get
one_link-IsCounted = record { one_link = (refl, tt); counts = ((refl, tt), λ q. ground arith) }

two_links-IsCounted : IsCounted two_links.inner
unfolding count get same
two_links-IsCounted = record {
  one_link = (refl, (refl, tt));
  counts = ((refl, tt), λ q. ground arith);
}

create_link-IsCounted_example : IsCounted (create_link files b_path target one_link).1.inner
create_link-IsCounted_example =
    create_link-IsCounted files b_path target one_link one_link-IsCounted
