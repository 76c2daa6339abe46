-- ===== src/Analysis/Rename.antt =====
-- A consistent renaming of an expression: the names of functions, variables and parameters by `f`,
-- the names of shapes by `g`.
use llmlang.Prelude.{Text, map}
use llmlang.Ast.{Param, Expr, Exprs}

abbrev pub rename_param : (Text → Text) → Param → Param
rename_param f p = record p { name = f p.name }

module _ (f g : Text → Text) where
  unfoldable mutual
    pub rename : Expr → Expr
    rename (Expr.integer a) = Expr.integer a
    rename (Expr.float a) = Expr.float a
    rename (Expr.de_bruijn a) = Expr.de_bruijn a
    rename (Expr.identifier a) = Expr.identifier (f a)
    rename (Expr.binary_op a b c) = Expr.binary_op a (rename b) (rename c)
    rename (Expr.apply a b) = Expr.apply (rename a) (rename_args b)
    rename (Expr.move a) = Expr.move (rename a)
    rename (Expr.borrow a) = Expr.borrow (rename a)
    rename (Expr.mut_borrow a) = Expr.mut_borrow (rename a)
    rename (Expr.define a b c d) = Expr.define (f a) (map (rename_param f) b) (rename c) d
    rename (Expr.shape a b c) = Expr.shape (g a) b c
    rename (Expr.new a b) = Expr.new (g a) (rename b)
    rename (Expr.get a b c) = Expr.get (rename a) b (rename c)
    rename (Expr.set a b c d) = Expr.set (rename a) b (rename c) (rename d)
    rename (Expr.if_else a b c) = Expr.if_else (rename a) (rename b) (rename c)
    rename (Expr.expand a) = Expr.expand (f a)
    rename (Expr.let_in a b c) = Expr.let_in (f a) (rename b) (rename c)
    rename (Expr.import a b c) = Expr.import a (f b) c
    rename (Expr.string a) = Expr.string a
    rename (Expr.len a) = Expr.len (rename a)
    rename (Expr.cat a b) = Expr.cat (rename a) (rename b)
    rename (Expr.sub a b c) = Expr.sub (rename a) (rename b) (rename c)
    rename (Expr.loc a b) = Expr.loc (rename a) (rename b)
    rename (Expr.reg a b) = Expr.reg (rename a) (rename b)
    rename (Expr.read a) = Expr.read (rename a)
    rename (Expr.write a b) = Expr.write (rename a) (rename b)
    rename (Expr.str a) = Expr.str (rename a)
    rename (Expr.split a b c) = Expr.split (rename a) (rename b) (rename c)
    rename Expr.time_now = Expr.time_now
    rename Expr.time_nano = Expr.time_nano
    rename (Expr.time_get a b) = Expr.time_get (rename a) (rename b)
    rename (Expr.time_set a b c d e₁ e₂) =
        Expr.time_set (rename a) (rename b) (rename c) (rename d) (rename e₁) (rename e₂)
    rename (Expr.env a) = Expr.env (rename a)
    rename (Expr.seq a b) = Expr.seq (rename a) (rename b)
    rename (Expr.pack a) = Expr.pack (rename a)
    rename (Expr.unpack a b) = Expr.unpack (rename a) (g b)
    rename (Expr.metadata a b c) = Expr.metadata (rename a) (rename b) (rename c)
    rename (Expr.otel_emit a b c d) = Expr.otel_emit (rename a) (rename b) (rename c) (rename d)
    rename (Expr.map a b c) = Expr.map (rename a) b (rename c)
    rename (Expr.filter a b) = Expr.filter (rename a) (rename b)
    rename (Expr.money_op a b c) = Expr.money_op a (rename b) (rename c)
    rename (Expr.money_str a) = Expr.money_str (rename a)
    rename (Expr.time_op a b c) = Expr.time_op a (rename b) (rename c)
    rename Expr.time_zone = Expr.time_zone
    rename (Expr.panic a) = Expr.panic (rename a)
    rename (Expr.trap a b) = Expr.trap (rename a) (rename b)
    rename (Expr.http_client a b c) = Expr.http_client (rename a) (rename b) (rename c)
    rename (Expr.http_server a b) = Expr.http_server (rename a) (rename b)
    rename (Expr.http_header a b) = Expr.http_header (rename a) (rename b)
    rename (Expr.file_open a b) = Expr.file_open (rename a) (rename b)

    pub rename_args : Exprs → Exprs
    rename_args Exprs.nil = Exprs.nil
    rename_args (Exprs.cons e es) = Exprs.cons (rename e) (rename_args es)
