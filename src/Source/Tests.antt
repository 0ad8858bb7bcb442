-- ===== src/Source/Tests.antt =====
-- The library loaded whole, and loaded without one symbol.
use bambu_farm.Base.{true, false, not, some, [], ◌∷◌, ◌≡◌, refl, All, take, arith}
use bambu_farm.Base.Text.{codes, text_eq}
use bambu_farm.Source.{
  Linker, unloaded, create, init, seek, directory_of, exported_all, bambu_source_init, null_called,
  forward,
}
use bambu_farm.Source.Calls.{IsWhole, IsSafe, exported_all-IsSafe}
use bambu_farm.Source.Missing.{Lacks, exported_missing}

abbrev found : Linker
found = record {
  dladdr = some (codes "/app/lib/libBambuSource.so");
  dlopen = λ path. true;
  dlsym = λ name. true;
  dlerror = [];
}

abbrev not_found : Linker
not_found = record found { dlopen = λ path. false }

exported_all-IsSafe_example :
    All IsSafe (
      exported_all
        ((found, create) ∷ (not_found, seek) ∷ [])
        (bambu_source_init not_found unloaded))
exported_all-IsSafe_example =
    exported_all-IsSafe not_found ((found, create) ∷ (not_found, seek) ∷ []) whole
      (whole, (whole, tt))
  where
    whole : IsWhole found
    whole = ground arith

abbrev without_seek : Linker
without_seek = record found { dlsym = λ name. not (text_eq name (codes "Bambu_Seek")) }

directory_found :
    directory_of (take 4095 (codes "/app/lib/libBambuSource.so")) ≡ some (codes "/app/lib")
unfolding directory_of
directory_found = refl

seek_lacking : not (text_eq (codes "Bambu_Seek") (codes "Bambu_Seek")) ≡ false
unfolding text_eq
seek_lacking = refl

without_seek-Lacks : Lacks without_seek seek
without_seek-Lacks = record {
  file = codes "/app/lib/libBambuSource.so";
  directory = codes "/app/lib";
  addressed = refl;
  within = directory_found;
  opens = refl;
  missing = seek_lacking;
}

exported_missing_example :
    exported_all ((found, init) ∷ (found, seek) ∷ []) (bambu_source_init without_seek unloaded)
    ≡ forward init (bambu_source_init without_seek unloaded) ∷ null_called seek ∷ []
exported_missing_example =
    exported_missing without_seek found ((found, init) ∷ []) seek without_seek-Lacks
