-- ===== src/Bytes/Order.antt =====
-- `strcmp` is an order of texts.
use data_agent_demo.Prelude.{◌≡◌, refl, [], ◌∷◌, arith}
use data_agent_demo.Bytes.{Bytes, negative, equal, positive, strcmp}
use data_agent_demo.Bytes.Laws.{strcmp-equal_iff}

pub strcmp_flip : (a b : Bytes) → strcmp a b ≡ positive → strcmp b a ≡ negative
unfolding strcmp
strcmp_flip [] [] e = cc e
strcmp_flip [] (b ∷ bs) e = cc e
strcmp_flip (a ∷ as') [] e = refl
strcmp_flip (a ∷ as') (b ∷ bs) e = let ih = strcmp_flip as' bs in ground (arith, ih)

pub strcmp_trans :
    (a b c : Bytes) → strcmp a b ≡ negative → strcmp b c ≡ negative → strcmp a c ≡ negative
unfolding strcmp
strcmp_trans [] [] c e f = cc
strcmp_trans [] (b ∷ bs) [] e f = cc f
strcmp_trans [] (b ∷ bs) (c ∷ cs) e f = refl
strcmp_trans (a ∷ as') [] c e f = cc e
strcmp_trans (a ∷ as') (b ∷ bs) [] e f = cc f
strcmp_trans (a ∷ as') (b ∷ bs) (c ∷ cs) e f = let ih = strcmp_trans as' bs cs in ground (arith, ih)

pub strcmp_self : (a : Bytes) → strcmp a a ≡ equal
strcmp_self a = (strcmp-equal_iff a a).1 refl
