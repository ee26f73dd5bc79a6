-- ===== src/Engine/ConnectionTask/Sublists.antt =====
-- crates/cycbox-engine/src/tasks/connection_task.rs: results that may be missing, and lists of
-- messages that are part of others in their order.
use mathlib.Core.List.{Sublistᴰ}
use mathlib.Core.List.Sublistᴰ.{refl as sublist_refl, trans, append}
use mathlib.Core.Option
use cycbox.Base.{sym, subst, List, [], ◌∷◌, ◌++◌, append_assoc, Option, none, some}
use cycbox.Message.{Message}

-- Whatever is returned satisfies `P`.
abbrev pub Holds : {A : Type 0} → (A → Type 0) → Option A → Type 0
Holds P none = Unit
Holds P (some a) = P a

pub map-Holds :
    {A B : Type 0} (P : B → Type 0) (f : A → B) (o : Option A)
    → ((a : A) → P (f a))
    → Holds P (Option.map f o)
map-Holds P f none h = tt
map-Holds P f (some a) h = h a

pub Holds-map :
    {A B : Type 0} (Q : A → Type 0) (P : B → Type 0) (f : A → B) (o : Option A)
    → ((a : A) → Q a → P (f a))
    → Holds Q o
    → Holds P (Option.map f o)
Holds-map Q P f none h q = tt
Holds-map Q P f (some a) h q = h a q

pub Holds-bind :
    {A B : Type 0} (Q : A → Type 0) (P : B → Type 0) (f : A → Option B) (o : Option A)
    → ((a : A) → Q a → Holds P (f a))
    → Holds Q o
    → Holds P (Option.bind o f)
unfolding Option.bind
Holds-bind Q P f none h q = tt
Holds-bind Q P f (some a) h q = h a q

pub bind-Holds :
    {A B : Type 0} (P : B → Type 0) (f : A → Option B) (o : Option A)
    → ((a : A) → Holds P (f a))
    → Holds P (Option.bind o f)
unfolding Option.bind
bind-Holds P f none h = tt
bind-Holds P f (some a) h = h a

pub sublist-append : {l h : List Message} (k : List Message) → Sublistᴰ l h → Sublistᴰ l (h ++ k)
sublist-append [] Sublistᴰ.slnil = Sublistᴰ.slnil
sublist-append (x ∷ k) Sublistᴰ.slnil = Sublistᴰ.cons (sublist-append k Sublistᴰ.slnil)
sublist-append k (Sublistᴰ.cons d) = Sublistᴰ.cons (sublist-append k d)
sublist-append k (Sublistᴰ.cons-cons e d) = Sublistᴰ.cons-cons e (sublist-append k d)

pub nil_sublist : (l : List Message) → Sublistᴰ [] l
nil_sublist [] = Sublistᴰ.slnil
nil_sublist (m ∷ l) = Sublistᴰ.cons (nil_sublist l)

pub without :
    {h : List Message} (before : List Message) (m : Message) (behind : List Message)
    → Sublistᴰ (before ++ m ∷ behind) h
    → Sublistᴰ (before ++ behind) h
without before m behind d =
    trans (append (sublist_refl before) (Sublistᴰ.cons (sublist_refl behind))) d

pub moved :
    {h : List Message} (before : List Message) (m : Message) (behind : List Message)
    → Sublistᴰ (before ++ m ∷ behind) h
    → Sublistᴰ ((before ++ m ∷ []) ++ behind) h
moved {h} before m behind d =
    subst (λ l. Sublistᴰ l h) (sym (append_assoc before (m ∷ []) behind)) d
