-- ===== src/OrderedDict.antt =====
-- What the source relies on of `*ordereddict.Dict` (github.com/Velocidex/ordereddict), an ordered map
-- from strings that is not part of the repository: reading behind a write, and that a key which is new
-- goes to the end of the keys.
use vfilter.Base.{Option, none, some, List, [], ◌∷◌, ◌++◌, Bytes, equal, if◌then◌else◌, ◌≡◌}

pub record OrderedDict (V : Type 0) : Type 1 where
  pub Dict : Type 0
  pub new_dict : Dict
  pub get : Bytes → Dict → Option V
  pub set : Bytes → V → Dict → Dict
  pub keys : Dict → List Bytes
  pub get_new : (k : Bytes) → get k new_dict ≡ none
  pub get_set :
      (k j : Bytes) (v : V) (d : Dict) → get k (set j v d) ≡ (if equal j k then some v else get k d)
  pub keys_new : keys new_dict ≡ []
  pub keys_set :
      (k : Bytes) (v : V) (d : Dict) → get k d ≡ none → keys (set k v d) ≡ keys d ++ k ∷ []
