-- ===== src/Tests/Store.antt =====
-- A store that is a map, for the tests of the files.
use syftbox.Base.{List, [], ◌∷◌, none, some, Text, codes, inl, inr}
use syftbox.Base.Dict
use syftbox.Base.Dict.{Dict}
use syftbox.Blob.{Backend, BlobService, BlobInfo}

abbrev pub store : Backend
store = record {
  State = Dict Text;
  put = λ k body s. (inr (record { etag = codes "e"; time = codes "t" }), Dict.insert k body s);
  get = λ k s. elim (Dict.lookup k s) [ none ↦ inl (codes "no key") | some body ↦ inr body ];
  delete = λ k s. (none, Dict.erase k s);
  copy = λ k j s. (inl (codes "no copy"), s);
  put_presigned = λ k s. inr k;
  get_presigned = λ k s. inr k;
}

abbrev pub info : Text → BlobInfo
info k = record { key = k; etag = codes "e"; size = 1; last_modified = codes "t" }

-- The files with some keys and contents.
abbrev pub holding : List (Text × Text) → BlobService store
holding [] = record { objects = []; index = []; events = [] }
holding ((k, body) ∷ more) =
    let s = holding more in
    record s { objects = (k, body) ∷ s.objects; index = (k, info k) ∷ s.index }
