-- ===== src/ServHash/Names.antt =====
-- The table of service names after `serv_hash_initialise` of serv_hash.c.
use iftop_dotqoo.Prelude.{
  Bool-cases, List, Option, Option-cases, [], ap, if◌then◌else◌, inl, inr, length, length-set, none,
  or_else, or_else-none, or_else_assoc, refl, some, ℕ, ◌∙◌, ◌∷◌, ◌≡◌,
}
use iftop_dotqoo.Hash.{Table, hash_find, hash_initialise, hash_insert}
use iftop_dotqoo.Hash.Lookup.{hash_find-insert, hash_initialise_lem}
use iftop_dotqoo.ServHash.{
  IpService, Servent, add_service, serv_hash_compare, serv_hash_create, serv_hash_initialise,
  serv_ops, serv_ops-IsLawful, service_key,
}
use Prim.Native.String.{String}

-- What a name under a key, if it has one, is for a lookup of `q`.
abbrev name_under : Option IpService → String → IpService → Option String
name_under none name q = none
name_under (some k) name q = if serv_hash_compare k q then some name else none

module _ (getprotobyname : String → Option ℕ) where
  -- The name that one entry gives a service.
  abbrev entry_name : Servent → IpService → Option String
  entry_name ent q = name_under (service_key getprotobyname ent) ent.s_name q

  -- The name that the last entry for a service gives it.
  abbrev pub last_name : List Servent → IpService → Option String
  last_name [] q = none
  last_name (ent ∷ ents) q = or_else (last_name ents q) (entry_name ent q)

  add_service-width :
      (sh : Table IpService String) (ent : Servent)
      → length sh ≡ serv_ops.size
      → length (add_service getprotobyname sh ent) ≡ serv_ops.size
  unfolding add_service hash_insert
  add_service-width sh ent w = elim (Option-cases (service_key getprotobyname ent)) [
    | inl e ↦ rw (add_service, e) w
    | inr (k, e) ↦ rw (add_service, e) (length-set sh _ _ ∙ w)
  ]

  hash_find-add_service :
      (sh : Table IpService String) (ent : Servent) (q : IpService)
      → length sh ≡ serv_ops.size
      → hash_find serv_ops (add_service getprotobyname sh ent) q
        ≡ or_else (entry_name ent q) (hash_find serv_ops sh q)
  unfolding add_service
  hash_find-add_service sh ent q w = elim (Option-cases (service_key getprotobyname ent)) [
    | inl e ↦ rw (add_service, e)
    | inr (k, e) ↦
        rw (add_service, e, hash_find-insert serv_ops serv_ops-IsLawful sh k q ent.s_name w)
          (elim (Bool-cases (serv_hash_compare k q)) [ inl same ↦ rw same | inr apart ↦ rw apart ])
  ]

  serv_hash_initialise-from :
      (ents : List Servent) (sh : Table IpService String) (q : IpService)
      → length sh ≡ serv_ops.size
      → hash_find serv_ops (serv_hash_initialise getprotobyname sh ents) q
        ≡ or_else (last_name ents q) (hash_find serv_ops sh q)
  unfolding serv_hash_initialise
  serv_hash_initialise-from [] sh q w = refl
  serv_hash_initialise-from (ent ∷ ents) sh q w =
      serv_hash_initialise-from ents (add_service getprotobyname sh ent) q
        (add_service-width sh ent w)
      ∙ ap (λ o. or_else (last_name ents q) o) (hash_find-add_service sh ent q w)
      ∙ or_else_assoc (last_name ents q) (entry_name ent q) (hash_find serv_ops sh q)

  -- After the entries of the service database have been read into a new table, a lookup of a port
  -- and a protocol gives the name of the last entry that has them, in host byte order and with a
  -- known protocol, and nothing where there is none.
  pub serv_hash_initialise_lem :
      (ents : List Servent) (q : IpService)
      → hash_find serv_ops (serv_hash_initialise getprotobyname serv_hash_create ents) q
        ≡ last_name ents q
  unfolding serv_hash_create
  serv_hash_initialise_lem ents q =
      let (v, empty) = hash_initialise_lem {R = String} serv_ops serv_ops-IsLawful in
      serv_hash_initialise-from ents (hash_initialise serv_ops).0 q v.width
      ∙ ap (λ o. or_else (last_name ents q) o) (empty q)
      ∙ or_else-none (last_name ents q)
